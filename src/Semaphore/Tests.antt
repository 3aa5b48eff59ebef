-- ===== src/Semaphore/Tests.antt =====
-- Two threads at a semaphore of at most five units.
use shmdos.Prelude.{ℕ, true, ◌≢◌, update, Bool-cases, ◌==◌, inl, inr, ◌+◌, ◌≤◌, ◌≡◌, refl, arith}
use shmdos.Semaphore.{wait_update, wait, on_wait_begin, signal, on_wake}
use shmdos.Semaphore.Steps.{
  State, initial, took, after_wait, after_begin, call_wait, begin_wait, wake, call_signal,
  set_event, find_set, done, done_early, asleep, begun, idle, Reachable, start, after,
}
use shmdos.Semaphore.Ledger.{Reachable-value, Reachable-done}

-- A thread asks for three units where there is one, and sleeps for two.
abbrev asked : State
asked =
    took (initial 1 5) 0 0 (wait true (initial 1 5).sem 3 9).1
      (after_wait 3 (wait true (initial 1 5).sem 3 9).0)

abbrev slept : State
slept =
    took asked 0 (asked.got 0) (on_wait_begin asked.sem 2).1
      (after_begin 3 (on_wait_begin asked.sem 2).0)

abbrev signalled : State
signalled = record slept { sem = signal slept.sem 4; put_in = slept.put_in + 4 }

-- Four units come, the thread takes two of them and is done.
abbrev woken : State
woken =
    took signalled 0 (signalled.got 0) (record { value = 2; wait_count = 0; max = 5 })
      (after_begin 3 0)

run : Reachable 1 5 woken
unfolding wait on_wait_begin wait_update signal on_wake
run =
    after
      (after (after (after start (call_wait 0 3 9 true refl)) (begin_wait 0 3 2 refl refl))
        (call_signal 4))
      (wake 0 3 2 0 (record { value = 2; wait_count = 0; max = 5 }) refl refl)

Reachable-value_example : (woken.sem.value ≤ 5) × (woken.sem.value + woken.out ≤ woken.put_in)
Reachable-value_example = Reachable-value 1 5 (omega arith) woken run

-- The event is left set, and a thread that finds it so goes away with one unit of three.
abbrev early : State
early = record asked { thread = update asked.thread 0 (done_early 3 2) }

none_asleep : (t count rest : ℕ) → asked.thread t ≢ asleep count rest
unfolding wait wait_update
none_asleep t count rest e = elim (Bool-cases (t == 0)) [
  | inl here ↦ not_begun (rw here at e)
  | inr other ↦ not_idle (rw other at e)
]
  where
    not_begun : begun 3 2 ≡ asleep count rest → ⊥
    not_begun z = cc z

    not_idle : idle ≡ asleep count rest → ⊥
    not_idle z = cc z

early_run : Reachable 1 5 early
unfolding wait wait_update
early_run =
    after (after (after start (call_wait 0 3 9 true refl)) (set_event none_asleep))
      (find_set 0 3 2 refl refl)

Reachable-done_example :
    (early.thread 0 ≡ done 3 → early.got 0 ≡ 3)
    × (early.thread 0 ≡ done_early 3 2 → early.got 0 + 2 ≡ 3)
Reachable-done_example = Reachable-done 1 5 (omega arith) early 0 3 2 early_run
