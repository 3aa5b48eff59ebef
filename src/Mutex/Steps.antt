-- ===== src/Mutex/Steps.antt =====
-- The atomic steps of threads at a mutex, in runs in which no wait times out. The list of sleepers is
-- that of `EventObject`, whose `set` wakes the first. A thread goes on inside when its `lock` returns,
-- whatever the result, as `klock_guard` does.
use shmdos.Prelude.{ℕ, ◌+◌, ◌≡◌, ◌≢◌, Bool, true, false, List, [], ◌∷◌, ◌++◌, update}
use shmdos.Mutex.{free_spin, try_lock, on_wait_begin, lock_woken, freed, hand_over, unlock}

-- Where a thread is: outside, in the list, woken up on its way out of `lock`, on that way after
-- `onWaitBegin` has taken the mutex, or inside.
pub data Thread : Type 0 where
  outside : Thread
  asleep : Thread
  woken : Thread
  acquired : Thread
  owner : Thread

-- `waking` says whether some thread has been woken that has not yet changed the word.
pub record State : Type 0 where
  pub word : ℕ
  pub thread : ℕ → Thread
  pub sleepers : List ℕ
  pub waking : Bool

abbrev pub initial : State
initial = record { word = free_spin; thread = λ t. outside; sleepers = []; waking = false }

-- `cpu` is the processor that a thread runs on. Fewer threads wait than the word can count.
pub data Step (cpu : ℕ → ℕ) : State → State → Type 0 where
  lock_free :
      {s : State} (t : ℕ)
      → s.thread t ≡ outside
      → (try_lock s.word (cpu t)).0 ≡ true
      → Step cpu s
          (record s { word = (try_lock s.word (cpu t)).1; thread = update s.thread t owner })
  lock_begin :
      {s : State} (t : ℕ)
      → s.thread t ≡ outside
      → (on_wait_begin s.word (cpu t)).0 ≡ false
      → Step cpu s (record s {
        word = (on_wait_begin s.word (cpu t)).1;
        thread = update s.thread t acquired;
      })
  lock_begin_end :
      {s : State} (t : ℕ)
      → s.thread t ≡ acquired
      → Step cpu s
          (record s { word = (lock_woken s.word (cpu t)).1; thread = update s.thread t owner })
  lock_sleep :
      {s : State} (t : ℕ)
      → s.thread t ≡ outside
      → (on_wait_begin s.word (cpu t)).0 ≡ true
      → s.word + 1 ≢ free_spin
      → Step cpu s (record s {
        word = (on_wait_begin s.word (cpu t)).1;
        thread = update s.thread t asleep;
        sleepers = s.sleepers ++ (t ∷ []);
      })
  lock_end :
      {s : State} (t : ℕ)
      → s.thread t ≡ woken
      → Step cpu s (record s {
        word = (lock_woken s.word (cpu t)).1;
        thread = update s.thread t owner;
        waking = false;
      })
  unlock_free :
      {s : State} (t word : ℕ)
      → s.thread t ≡ owner
      → unlock s.word ≡ freed word
      → Step cpu s (record s { word = word; thread = update s.thread t outside })
  unlock_wake :
      {s : State} (t u : ℕ) (rest : List ℕ)
      → s.thread t ≡ owner
      → unlock s.word ≡ hand_over
      → s.sleepers ≡ u ∷ rest
      → Step cpu s (record s {
        thread = update (update s.thread t outside) u woken;
        sleepers = rest;
        waking = true;
      })

pub data Reachable (cpu : ℕ → ℕ) : State → Type 0 where
  start : Reachable cpu initial
  after : {s u : State} → Reachable cpu s → Step cpu s u → Reachable cpu u
