-- ===== src/Mutex.antt =====
-- kernel/kmutex.cpp: the lock word of a mutex. It is free, or the processor of the owner, or, from
-- MAX_CPU on, says how many threads wait. A failed compare-and-swap reads the word again, so a loop is
-- its last round.
use shmdos.Prelude.{ℕ, ◌+◌, ◌-◌, ◌%◌, ◌^◌, Bool, true, false, ◌||◌, ltb, leb, ◌==◌, if◌then◌else◌}
pub mod Steps
pub mod Locking
pub mod Exclusion
mod Tests

abbrev pub wait_count_start : ℕ
wait_count_start = 255

abbrev pub free_spin : ℕ
free_spin = 2 ^ 32 - 1

-- The swap from the free value, with which `try_lock` ends.
unfoldable pub try_lock : (word cpu : ℕ) → Bool × ℕ
try_lock word cpu = if word == free_spin then (true, cpu) else (false, word)

-- A round of the spinning in `lock`.
pub data Round : Type 0 where
  acquired : Round
  give_up : Round
  again : Round

unfoldable pub spin_round : (word cpu : ℕ) → Round × ℕ
unfolding try_lock
spin_round word cpu =
    let (got, next) = try_lock word cpu in
    if got
    then (acquired, next)
    else ((if leb wait_count_start word || word == cpu then give_up else again), next)

-- Whether the thread has to sleep, and the word after `onWaitBegin`. It notes for itself that it is
-- counted as a waiter exactly if it sleeps.
unfoldable pub on_wait_begin : (word cpu : ℕ) → Bool × ℕ
on_wait_begin word cpu =
    if word == free_spin
    then (false, cpu)
    else (true, if ltb word wait_count_start then wait_count_start else (word + 1) % 2 ^ 32)

unfoldable pub on_wake : (word cpu : ℕ) → ℕ
on_wake word cpu = if word == wait_count_start then cpu else (word + 2 ^ 32 - 1) % 2 ^ 32

-- The end of `lock` where `EventObject::wait` has returned false, as after a time-out, to a thread that is
-- counted as a waiter.
unfoldable pub lock_timed_out : (word cpu : ℕ) → Bool × ℕ
unfolding on_wake
lock_timed_out word cpu = (true, on_wake word cpu)

-- The end where it has returned true: after a wake-up, and after `onWaitBegin` has taken the mutex.
unfoldable pub lock_woken : (word cpu : ℕ) → Bool × ℕ
unfolding on_wake
lock_woken word cpu = let next = on_wake word cpu in (ltb next wait_count_start, next)

-- `unlock` frees the word, or leaves it and wakes a waiter by `EventObject::set`.
pub data Unlock : Type 0 where
  freed : (word : ℕ) → Unlock
  hand_over : Unlock

unfoldable pub unlock : ℕ → Unlock
unlock word = if ltb word wait_count_start then freed free_spin else hand_over
