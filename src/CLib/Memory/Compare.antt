-- ===== src/CLib/Memory/Compare.antt =====
-- `memcmp` orders two ranges by the first byte at which they differ.
use shmdos.Prelude.{
  ℕ, zero, suc, ◌+◌, ◌<◌, ◌≡◌, ◌≢◌, refl, ap, ◌∙◌, ◌↔◌, inl, inr, true, arith, ltb, ◌==◌,
  Bool-cases, ==_iff, if◌then◌else◌,
}
use shmdos.Prelude.Int.{pos, negsuc}
use shmdos.CLib.Memory.{Memory, memcmp}

-- The first `n` bytes from `lhs` and from `rhs` on agree.
abbrev pub Agree : Memory → ℕ → ℕ → ℕ → Type 0
Agree m lhs rhs n = (i : ℕ) → i < n → m (lhs + i) ≡ m (rhs + i)

module _ (m : Memory) where
  Agree-head : (lhs rhs n : ℕ) → Agree m lhs rhs (suc n) → m lhs ≡ m rhs
  Agree-head lhs rhs n h = ap m (omega arith) ∙ h 0 (omega arith) ∙ ap m (omega arith)

  Agree-tail : (lhs rhs n : ℕ) → Agree m lhs rhs (suc n) → Agree m (lhs + 1) (rhs + 1) n
  Agree-tail lhs rhs n h i lt = ap m (omega arith) ∙ h (suc i) (omega arith) ∙ ap m (omega arith)

  Agree-cons :
      (lhs rhs n : ℕ) → m lhs ≡ m rhs → Agree m (lhs + 1) (rhs + 1) n → Agree m lhs rhs (suc n)
  Agree-cons lhs rhs n e h zero lt = ap m (omega arith) ∙ e ∙ ap m (omega arith)
  Agree-cons lhs rhs n e h (suc i) lt = ap m (omega arith) ∙ h i (omega arith) ∙ ap m (omega arith)

  memcmp-differ :
      (k n lhs rhs : ℕ)
      → k < n
      → Agree m lhs rhs k
      → m (lhs + k) ≢ m (rhs + k)
      → memcmp n m lhs rhs ≡ (if ltb (m (lhs + k)) (m (rhs + k)) then negsuc 0 else pos 1)
  unfolding memcmp
  memcmp-differ k zero lhs rhs lt agree ne = absurd (omega arith)
  memcmp-differ zero (suc n) lhs rhs lt agree ne =
      let l : lhs + 0 ≡ lhs = omega arith in
      let r : rhs + 0 ≡ rhs = omega arith in
      let first : m lhs ≢ m rhs = λ e. ne (rw (l, r) e) in rw (l, r) (ground arith)
  memcmp-differ (suc k) (suc n) lhs rhs lt agree ne =
      let l : lhs + suc k ≡ lhs + 1 + k = omega arith in
      let r : rhs + suc k ≡ rhs + 1 + k = omega arith in
      let first : (m lhs == m rhs) ≡ true = (==_iff _ _).1 (Agree-head lhs rhs k agree) in
      rw (first, l, r)
        (memcmp-differ k n (lhs + 1) (rhs + 1) (omega arith) (Agree-tail lhs rhs k agree)
          (λ e. ne (rw (l, r) e)))

  memcmp-Agree : (n lhs rhs : ℕ) → Agree m lhs rhs n → memcmp n m lhs rhs ≡ pos 0
  unfolding memcmp
  memcmp-Agree zero lhs rhs h = refl
  memcmp-Agree (suc n) lhs rhs h =
      rw ((==_iff _ _).1 (Agree-head lhs rhs n h))
        (memcmp-Agree n (lhs + 1) (rhs + 1) (Agree-tail lhs rhs n h))

  Agree-memcmp : (n lhs rhs : ℕ) → memcmp n m lhs rhs ≡ pos 0 → Agree m lhs rhs n
  unfolding memcmp
  Agree-memcmp zero lhs rhs h = λ i lt. absurd (omega arith)
  Agree-memcmp (suc n) lhs rhs h = elim (Bool-cases (m lhs == m rhs)) [
    | inl eq ↦
        Agree-cons lhs rhs n ((==_iff _ _).0 eq) (Agree-memcmp n (lhs + 1) (rhs + 1) (rw eq at h))
    | inr ne ↦ absurd (ground arith)
  ]

-- `memcmp` is 0 exactly when the ranges agree; where they first differ at offset `k`, it is -1 if the
-- left byte is the smaller one there, and 1 otherwise.
pub memcmp-first :
    (m : Memory) (lhs rhs n : ℕ)
    → ((memcmp n m lhs rhs ≡ pos 0) ↔ Agree m lhs rhs n)
      × ((k : ℕ)
          → k < n
          → Agree m lhs rhs k
          → m (lhs + k) ≢ m (rhs + k)
          → memcmp n m lhs rhs ≡ (if ltb (m (lhs + k)) (m (rhs + k)) then negsuc 0 else pos 1))
memcmp-first m lhs rhs n =
    ((Agree-memcmp m n lhs rhs, memcmp-Agree m n lhs rhs), λ k. memcmp-differ m k n lhs rhs)
