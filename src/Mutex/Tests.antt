-- ===== src/Mutex/Tests.antt =====
-- Two threads at a mutex, on the processors 1 and 2.
use shmdos.Prelude.{
  ℕ, ◌<◌, ◌≤◌, ◌≡◌, ◌⊎◌, refl, true, [], ◌∷◌, ◌++◌, arith, update, length, if◌then◌else◌, ◌==◌,
}
use shmdos.Mutex.{
  free_spin, wait_count_start, try_lock, on_wait_begin, lock_timed_out, freed, hand_over, unlock,
}
use shmdos.Mutex.Steps.{
  asleep, acquired, owner, State, initial, lock_free, lock_begin, lock_sleep, Reachable, start,
  after,
}
use shmdos.Mutex.Exclusion.{
  Reachable-owner, unlock-sleepers, lock_woken-forgets, lock_timed_out-held,
}

abbrev cpu : ℕ → ℕ
cpu t = if t == 0 then 1 else 2

cpu_low : (t : ℕ) → cpu t < wait_count_start
cpu_low t = ground arith

cpu_some : (t : ℕ) → 0 < cpu t
cpu_some t = ground arith

-- Thread 0 is inside, thread 1 sleeps.
abbrev locked : State
locked = record initial {
  word = (try_lock initial.word (cpu 0)).1;
  thread = update initial.thread 0 owner;
}

abbrev contended : State
contended = record locked {
  word = (on_wait_begin locked.word (cpu 1)).1;
  thread = update locked.thread 1 asleep;
  sleepers = locked.sleepers ++ (1 ∷ []);
}

run : Reachable cpu contended
unfolding try_lock on_wait_begin
run = after (after start (lock_free 0 refl refl)) (lock_sleep 1 refl refl (omega arith))

-- Thread 0 has taken the mutex in `onWaitBegin` and has not ended its `lock`.
abbrev taken : State
taken = record initial {
  word = (on_wait_begin initial.word (cpu 0)).1;
  thread = update initial.thread 0 acquired;
}

taken_run : Reachable cpu taken
unfolding on_wait_begin
taken_run = after start (lock_begin 0 refl refl)

taken_word : taken.word < wait_count_start
unfolding on_wait_begin
taken_word = omega arith

contended_word : wait_count_start ≤ contended.word
unfolding try_lock on_wait_begin
contended_word = omega arith

Reachable-owner_example : ◌≡◌ {A = ℕ} 0 0
Reachable-owner_example = Reachable-owner cpu cpu_low cpu_some contended 0 0 run refl refl

unlock-sleepers_example :
    (unlock contended.word ≡ freed free_spin)
    ⊎ ((unlock contended.word ≡ hand_over) × (0 < length contended.sleepers))
unlock-sleepers_example = unlock-sleepers cpu cpu_low cpu_some contended 0 run refl

lock_woken-forgets_example :
    (v : State) × Reachable cpu v
    × (v.thread 1 ≡ asleep)
    × (v.sleepers ≡ taken.sleepers ++ (1 ∷ []))
    × (v.thread 0 ≡ owner)
    × (unlock v.word ≡ freed free_spin)
lock_woken-forgets_example =
    lock_woken-forgets cpu cpu_low cpu_some taken 0 1 taken_run refl taken_word refl

lock_timed_out-held_example : lock_timed_out contended.word 2 ≡ (true, 2)
lock_timed_out-held_example =
    lock_timed_out-held cpu cpu_low cpu_some contended 0 2 run refl refl contended_word
