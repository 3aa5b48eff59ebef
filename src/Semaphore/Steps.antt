-- ===== src/Semaphore/Steps.antt =====
-- The atomic steps of the threads that wait for and signal a semaphore, in runs in which no wait times
-- out. `EventObject::set` of kernel/EventObject.cpp, which `signal` calls as long as it has seen waiters and
-- units, leaves the event set if it finds no thread in the list; the next `EventObject::wait` takes that for
-- a wake-up.
use shmdos.Prelude.{Bool, true, false, ◌≢◌, ℕ, ◌+◌, ◌-◌, ◌≡◌, some, ◌==◌, if◌then◌else◌, update}
use shmdos.Semaphore.{
  Semaphore, Wait, acquired, failed, short, wait, on_wait_begin, signal, on_wake,
}

-- Where a thread is in its call of `wait`: the units that it asked for, and those it still wants. One that
-- has found the event set goes away `done_early`, without the rest.
pub data Thread : Type 0 where
  idle : Thread
  begun : (count rest : ℕ) → Thread
  asleep : (count rest : ℕ) → Thread
  done : (count : ℕ) → Thread
  done_early : (count rest : ℕ) → Thread

-- The semaphore, whether its event is left set, its threads, the units that each has taken in its present call and all together,
-- and the units that were there at first or were signalled.
pub record State : Type 0 where
  pub sem : Semaphore
  pub thread : ℕ → Thread
  pub got : ℕ → ℕ
  pub out : ℕ
  pub put_in : ℕ
  pub is_set : Bool

abbrev pub initial : ℕ → ℕ → State
initial value max = record {
  sem = record { value = value; wait_count = 0; max = max };
  thread = λ t. idle;
  got = λ t. 0;
  out = 0;
  put_in = value;
  is_set = false;
}

-- Thread t, which had `before`, goes on with the semaphore `u`: what that has less, t has more.
abbrev pub took : State → ℕ → ℕ → Semaphore → Thread → State
took s t before u next = record s {
  sem = u;
  thread = update s.thread t next;
  got = update s.got t (before + (s.sem.value - u.value));
  out = s.out + (s.sem.value - u.value);
}

abbrev pub after_wait : ℕ → Wait → Thread
after_wait count acquired = done count
after_wait count failed = idle
after_wait count (short rest) = begun count rest

abbrev pub after_begin : ℕ → ℕ → Thread
after_begin count rest = if rest == 0 then done count else asleep count rest

-- A `set` that finds no thread in the list may come at any time when none is there.
pub data Step : State → State → Type 0 where
  call_wait :
      {s : State} (t count timeout : ℕ) (swaps : Bool)
      → s.thread t ≡ idle
      → Step s (
          took s t 0
            (wait swaps s.sem count timeout).1
            (after_wait count (wait swaps s.sem count timeout).0))
  begin_wait :
      {s : State} (t count rest : ℕ)
      → s.thread t ≡ begun count rest
      → s.is_set ≡ false
      → Step s (
          took s t
            (s.got t)
            (on_wait_begin s.sem rest).1
            (after_begin count (on_wait_begin s.sem rest).0))
  wake :
      {s : State} (t count rest left : ℕ) (u : Semaphore)
      → s.thread t ≡ asleep count rest
      → on_wake s.sem rest ≡ some (left, u)
      → Step s (took s t (s.got t) u (after_begin count left))
  call_signal :
      {s : State} (count : ℕ)
      → Step s (record s { sem = signal s.sem count; put_in = s.put_in + count })
  set_event :
      {s : State}
      → ((t count rest : ℕ) → s.thread t ≢ asleep count rest)
      → Step s (record s { is_set = true })
  find_set :
      {s : State} (t count rest : ℕ)
      → s.thread t ≡ begun count rest
      → s.is_set ≡ true
      → Step s (record s { thread = update s.thread t (done_early count rest); is_set = false })
  return_early :
      {s : State} (t count rest : ℕ)
      → s.thread t ≡ done_early count rest
      → Step s (record s { thread = update s.thread t idle; got = update s.got t 0 })
  return_done :
      {s : State} (t count : ℕ)
      → s.thread t ≡ done count
      → Step s (record s { thread = update s.thread t idle; got = update s.got t 0 })

pub data Reachable (value max : ℕ) : State → Type 0 where
  start : Reachable value max (initial value max)
  after : {s u : State} → Reachable value max s → Step s u → Reachable value max u
