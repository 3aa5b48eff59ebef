-- ===== src/SpinLock/Tests.antt =====
-- The spin lock of kernel/SpinLock.cpp, new.
use shmdos.Prelude.{ℕ, ◌≡◌, ◌≢◌, ◌<◌, refl, Bool, true, false, none, some}
use shmdos.SpinLock.{
  Spins, limit_align, alloc_rounds, alloc_spin_entry, use_entry, Lock, returns, try_lock, unlock,
}
use shmdos.SpinLock.Entries.{Outcome, alloc_spin_entry-Outcome}
use shmdos.SpinLock.Alone.{unlock-try_lock}

abbrev no_fail : ℕ → Bool
no_fail k = false

abbrev no_spins : Spins
no_spins = record { count = 0; used = λ e. false }

abbrev one_spin : Spins
one_spin = use_entry (record { count = 1; used = λ e. false }) 1

abbrev new_lock : Lock
new_lock = record {
  tail = none;
  last_entry = none;
  next = λ e. none;
  waits = λ e. false;
  spins = no_spins;
}

first-entry : alloc_spin_entry no_fail no_spins ≡ some (1, one_spin)
unfolding alloc_rounds
first-entry = refl

alloc_spin_entry-Outcome_example :
    Outcome no_spins (alloc_spin_entry no_fail no_spins)
    × ((i : ℕ)
        → ((k : ℕ) → no_fail k ≡ false)
        → i < limit_align
        → no_spins.used i ≡ false
        → alloc_spin_entry no_fail no_spins ≢ none)
alloc_spin_entry-Outcome_example = alloc_spin_entry-Outcome no_fail no_spins

unlock-try_lock_example :
    (m : Lock) × (try_lock no_fail new_lock ≡ returns (true, m))
    × ((v : Lock) → unlock m ≡ returns v → v.tail ≡ some 1)
unlock-try_lock_example = unlock-try_lock no_fail new_lock 1 one_spin refl first-entry (λ z. cc z)
