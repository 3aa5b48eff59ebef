-- ===== src/SpinLock/Entries.antt =====
-- `allocSpinEntry` of kernel/SpinLock.cpp finds an entry that is not in use.
use shmdos.Prelude.{
  ℕ, zero, suc, ◌+◌, ◌-◌, ◌%◌, ◌<◌, ◌≡◌, ◌≢◌, refl, sym, subst, ◌∙◌, inl, inr, Bool, true, false,
  ◌||◌, Bool-cases, Option, none, some, update, arith,
}
use shmdos.SpinLock.{
  Spins, limit_align, word_mod, count_on, use_entry, alloc_rounds, alloc_spin_entry,
}

-- What a call may give: an entry that was not in use, now in use, or none, if the rounds tried each of
-- these entries and it was in use or the exchange failed.
pub data Outcome (s : Spins) : Option (ℕ × Spins) → Type 0 where
  found :
      (e count : ℕ)
      → s.used e ≡ false
      → e < limit_align
      → Outcome s (some (e, record { count = count; used = update s.used e true }))
  panic : Outcome s none

-- The entry that a round tries.
abbrev tried : Spins → ℕ
tried s = (s.count + 1) % word_mod % limit_align

round-next :
    (n : ℕ) (weak : ℕ → Bool) (s : Spins)
    → (s.used (tried s) || weak n) ≡ true
    → alloc_rounds (suc n) weak s ≡ alloc_rounds n weak (count_on s)
unfolding alloc_rounds
round-next n weak s test = rw test refl

round-found :
    (n : ℕ) (weak : ℕ → Bool) (s : Spins)
    → (s.used (tried s) || weak n) ≡ false
    → alloc_rounds (suc n) weak s ≡ some (tried s, use_entry (count_on s) (tried s))
unfolding alloc_rounds
round-found n weak s test = rw test refl

Outcome-count_on : (s : Spins) (r : Option (ℕ × Spins)) → Outcome (count_on s) r → Outcome s r
Outcome-count_on s r (found e count free lt) = found e count free lt
Outcome-count_on s r panic = panic

or-left : (a b : Bool) → (a || b) ≡ false → a ≡ false
or-left true b e = e
or-left false b e = refl

rounds-Outcome : (n : ℕ) (weak : ℕ → Bool) (s : Spins) → Outcome s (alloc_rounds n weak s)
unfolding alloc_rounds
rounds-Outcome zero weak s = panic
rounds-Outcome (suc n) weak s = elim (Bool-cases (s.used (tried s) || weak n)) [
  | inl on ↦
      subst (Outcome s) (sym (round-next n weak s on))
        (Outcome-count_on s (alloc_rounds n weak (count_on s)) (rounds-Outcome n weak (count_on s)))
  | inr done ↦ subst (Outcome s) (sym (round-found n weak s done)) (
      found (tried s) ((s.count + 1) % word_mod) (or-left (s.used (tried s)) (weak n) done)
        (omega arith))
]

rounds-used :
    (n : ℕ) (weak : ℕ → Bool) (s : Spins) (j : ℕ)
    → ((k : ℕ) → weak k ≡ false)
    → alloc_rounds n weak s ≡ none
    → j < n
    → s.used ((s.count + 1 + j) % limit_align) ≡ true
rounds-used zero weak s j strong e lt = absurd (omega (arith, lt))
rounds-used (suc n) weak s j strong e lt = elim (Bool-cases (s.used (tried s))) [
  | inr free ↦
      let test : (s.used (tried s) || weak n) ≡ false = rw (free, strong n) refl in
      absurd (clash (sym (round-found n weak s test) ∙ e))
  | inl busy ↦
      let test : (s.used (tried s) || weak n) ≡ true = rw busy refl in
      let rest = sym (round-next n weak s test) ∙ e in
      go j lt busy (λ k less. rounds-used n weak (count_on s) k strong rest less)
]
  where
    clash : {x : ℕ × Spins} → some x ≡ none → ⊥
    clash z = cc

    go :
        (j : ℕ)
        → j < suc n
        → s.used (tried s) ≡ true
        → ((k : ℕ) → k < n → s.used (((s.count + 1) % word_mod + 1 + k) % limit_align) ≡ true)
        → s.used ((s.count + 1 + j) % limit_align) ≡ true
    go zero lt busy rest =
        let same : tried s ≡ (s.count + 1 + 0) % limit_align = omega arith in
        subst (λ i. s.used i ≡ true) same busy
    go (suc j) lt busy rest =
        let same : ((s.count + 1) % word_mod + 1 + j) % limit_align
            ≡ (s.count + 1 + suc j) % limit_align =
          omega arith in
        subst (λ i. s.used i ≡ true) same (rest j (omega (arith, lt)))

alloc_spin_entry-some :
    (weak : ℕ → Bool) (s : Spins) (i : ℕ)
    → ((k : ℕ) → weak k ≡ false)
    → i < limit_align
    → s.used i ≡ false
    → alloc_spin_entry weak s ≢ none
alloc_spin_entry-some weak s i strong lt free e =
    let j = (i + limit_align - (s.count + 1) % limit_align) % limit_align in
    let same : (s.count + 1 + j) % limit_align ≡ i = omega (arith, lt) in
    clash (
      sym (
        subst (λ x. s.used x ≡ true) same (rounds-used limit_align weak s j strong e (omega arith)))
      ∙ free)
  where
    clash : true ≡ false → ⊥
    clash z = cc

-- Whichever compare-and-swaps fail for no reason: an entry that `allocSpinEntry` gives was not in use, is
-- in use now, and no other has changed. If none fails so and any of the 128 entries is not in use, it
-- gives one.
pub alloc_spin_entry-Outcome :
    (weak : ℕ → Bool) (s : Spins)
    → Outcome s (alloc_spin_entry weak s)
      × ((i : ℕ)
          → ((k : ℕ) → weak k ≡ false)
          → i < limit_align
          → s.used i ≡ false
          → alloc_spin_entry weak s ≢ none)
alloc_spin_entry-Outcome weak s = (
  rounds-Outcome limit_align weak s,
  λ i strong lt free. alloc_spin_entry-some weak s i strong lt free,
)
