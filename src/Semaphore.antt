-- ===== src/Semaphore.antt =====
-- kernel/Semaphore.cpp: the state word of a semaphore, changed by compare-and-swap. A failed swap
-- reads the word again and changes nothing, so a loop is its last round.
use shmdos.Prelude.{
  ℕ, zero, suc, ◌+◌, ◌-◌, ◌%◌, ◌^◌, Bool, true, false, Option, none, some, min, ltb, leb, ◌==◌,
  ◌||◌, not, if◌then◌else◌,
}
pub mod Steps
pub mod Ledger
mod Tests

-- `State` and `m_max`
pub record Semaphore : Type 0 where
  pub value : ℕ
  pub wait_count : ℕ
  pub max : ℕ

abbrev pub word : ℕ
word = 2 ^ 32

-- What a thread that wants `count` units takes: all that are there if they are too few, and then
-- the rest that it still wants is left over. `inc` counts it as a waiter in that case.
unfoldable pub wait_update : Semaphore → Bool → ℕ → ℕ × Semaphore
wait_update s inc count =
    if ltb s.value count
    then (
      count - s.value,
      record s { value = 0; wait_count = if inc then (s.wait_count + 1) % word else s.wait_count },
    )
    else (0, record s { value = s.value - count })

-- What a call of `wait` does up to the point where the thread goes to sleep.
pub data Wait : Type 0 where
  acquired : Wait
  failed : Wait
  short : (rest : ℕ) → Wait

-- With a timeout of 0 there is one compare-and-swap, and `swaps` says whether it succeeds.
unfoldable pub wait : (swaps : Bool) → Semaphore → (count timeout : ℕ) → Wait × Semaphore
unfolding wait_update
wait swaps s count timeout =
    let (rest, t) = wait_update s false count in
    if count == 0
    then (acquired, s)
    else (if ltb s.max count
        then (failed, s)
        else (if timeout == 0
            then (if ltb s.value count || not swaps
                then (failed, s)
                else (acquired, record s { value = s.value - count }))
            else (if rest == 0 then (acquired, t) else (short rest, t))))

-- `onWaitBegin`: with the rest left over, the thread sleeps.
unfoldable pub on_wait_begin : Semaphore → ℕ → ℕ × Semaphore
unfolding wait_update
on_wait_begin s rest = wait_update s true rest

-- The first loop of `signal`.
unfoldable pub signal : Semaphore → ℕ → Semaphore
signal s count = if count == 0 then s else record s { value = min ((s.value + count) % word) s.max }

-- `onWakeSingleThread` for a thread that still wants `rest`: nothing without a unit, or the new rest.
unfoldable pub on_wake : Semaphore → ℕ → Option (ℕ × Semaphore)
on_wake s rest =
    if s.value == 0
    then none
    else (if ltb s.value rest
        then some (rest - s.value, record s { value = 0 })
        else some
            (0, record s { value = s.value - rest; wait_count = (s.wait_count + word - 1) % word }))
