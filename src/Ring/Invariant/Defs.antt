-- ===== src/Ring/Invariant/Defs.antt =====
-- The invariant of the ring, and that no two numbers have a claim on one cell.
use shmdos.Prelude.{
  ℕ, ◌+◌, ◌-◌, ◌%◌, ◌≤◌, ◌<◌, ◌≡◌, refl, sym, ◌||◌, inl, inr, Bool, true, false, arith, ltb, leb,
  Bool-cases,
}
use shmdos.Ring.{index_mod}
use shmdos.Ring.Slots.{same_slot-next}
use shmdos.Ring.Steps.{Phase, untouched, writing, filled, reading, emptied, State}

abbrev pub is_untouched : {A : Type 0} → Phase A → Bool
is_untouched untouched = true
is_untouched (writing x) = false
is_untouched (filled x) = false
is_untouched (reading x) = false
is_untouched (emptied x) = false

abbrev pub is_emptied : {A : Type 0} → Phase A → Bool
is_emptied untouched = false
is_emptied (writing x) = false
is_emptied (filled x) = false
is_emptied (reading x) = false
is_emptied (emptied x) = true

-- The pop has claimed it.
abbrev pub is_taken : {A : Type 0} → Phase A → Bool
is_taken untouched = false
is_taken (writing x) = false
is_taken (filled x) = false
is_taken (reading x) = true
is_taken (emptied x) = true

-- The push has ended.
abbrev pub is_pushed : {A : Type 0} → Phase A → Bool
is_pushed untouched = false
is_pushed (writing x) = false
is_pushed (filled x) = true
is_pushed (reading x) = true
is_pushed (emptied x) = true

-- The counter that the cell of number t has in this phase, until the pop ends.
abbrev pub phase_counter : {A : Type 0} → Phase A → ℕ → ℕ
phase_counter untouched t = t
phase_counter (writing x) t = t
phase_counter (filled x) t = t + 1
phase_counter (reading x) t = t + 1
phase_counter (emptied x) t = t

-- A cell between push and pop has the value of the push.
abbrev pub Holds : {A : Type 0} → Phase A → A → Type 0
Holds untouched y = Unit {0}
Holds (writing x) y = Unit {0}
Holds (filled x) y = y ≡ x
Holds (reading x) y = y ≡ x
Holds (emptied x) y = Unit {0}

-- The cell of number t has been emptied for it: it is its first use, or the pop before has ended.
abbrev pub is_free_for : {A : Type 0} → (ℕ → Phase A) → ℕ → ℕ → Bool
is_free_for phase size t = ltb t size || is_emptied (phase (t - size))

pub record Inv {A : Type 0} (size : ℕ) (s : State A) : Type 0 where
  pub size_is : s.ring.size ≡ size
  pub order : s.ring.read ≤ s.ring.write
  pub bound : s.ring.write + size + size ≤ index_mod
  pub future : (t : ℕ) → s.ring.write ≤ t → is_untouched (s.phase t) ≡ true
  pub past : (t : ℕ) → t < s.ring.write → is_untouched (s.phase t) ≡ false
  pub unread : (t : ℕ) → s.ring.read ≤ t → is_taken (s.phase t) ≡ false
  pub lap : (t : ℕ) → t < s.ring.write → is_free_for s.phase size t ≡ true
  pub count :
      (t : ℕ)
      → is_emptied (s.phase t) ≡ false
      → is_free_for s.phase size t ≡ true
      → s.ring.counter (t % size) ≡ phase_counter (s.phase t) t
  pub holds : (t : ℕ) → Holds (s.phase t) (s.ring.value (t % size))
  pub seen_push : (t : ℕ) → s.may_push t ≡ true → is_free_for s.phase size t ≡ true
  pub seen_pop : (t : ℕ) → s.may_pop t ≡ true → is_pushed (s.phase t) ≡ true

pub phase-taken : {A : Type 0} (p : Phase A) → is_emptied p ≡ true → is_taken p ≡ true
phase-taken untouched e = absurd (ground (arith, e))
phase-taken (writing x) e = absurd (ground (arith, e))
phase-taken (filled x) e = absurd (ground (arith, e))
phase-taken (reading x) e = absurd (ground (arith, e))
phase-taken (emptied x) e = refl

module _ {A : Type 0} (size : ℕ) (s : State A) (inv : Inv size s) where
  -- A cell that is free for u was emptied by a pop below the read index.
  free_below : (u : ℕ) → is_free_for s.phase size u ≡ true → u < s.ring.write + size
  free_below u free = elim (Bool-cases (ltb u size)) [
    | inl first ↦ ground (arith, first)
    | inr later ↦
        let e : is_emptied (s.phase (u - size)) ≡ true = rw later at free in
        let t = phase-taken (s.phase (u - size)) e in
        elim (Bool-cases (leb s.ring.read (u - size))) [
          | inl beyond ↦ absurd (ground (arith, t, inv.unread (u - size) (ground (arith, beyond))))
          | inr below ↦ ground (arith, below, inv.order, later)
        ]
  ]

  -- One that is not emptied for number t is within a lap of the write index.
  still_near : (t : ℕ) → 0 < size → is_emptied (s.phase t) ≡ false → s.ring.write ≤ t + size
  still_near t pos live = elim (Bool-cases (ltb (t + size) s.ring.write)) [
    | inr near ↦ ground (arith, near)
    | inl far ↦
        let free = inv.lap (t + size) (ground (arith, far)) in
        let later : ltb (t + size) size ≡ false = ground arith in
        let at : t + size - size ≡ t = omega arith in
        let e : is_emptied (s.phase t) ≡ true = rw at at (rw later at free) in
        absurd (ground (arith, e, live))
  ]

  not_both :
      (t u : ℕ)
      → 0 < size
      → is_emptied (s.phase t) ≡ false
      → is_free_for s.phase size u ≡ true
      → t < u
      → t % size ≡ u % size
      → ⊥
  not_both t u pos live free lt same =
      let low = still_near t pos live in
      let high = free_below u free in
      let next = same_slot-next size t u lt (omega (arith, low, high)) same in
      let later : ltb u size ≡ false = ground (arith, next) in
      let at : u - size ≡ t = omega (arith, next) in
      let e : is_emptied (s.phase t) ≡ true = rw at at (rw later at free) in ground (arith, e, live)

  -- Two numbers that both have the claim on one cell are the same.
  pub one_owner :
      (t u : ℕ)
      → 0 < size
      → is_emptied (s.phase t) ≡ false
      → is_free_for s.phase size t ≡ true
      → is_emptied (s.phase u) ≡ false
      → is_free_for s.phase size u ≡ true
      → t % size ≡ u % size
      → t ≡ u
  one_owner t u pos live_t free_t live_u free_u same = elim (Bool-cases (ltb t u)) [
    | inl less ↦ absurd (not_both t u pos live_t free_u (ground (arith, less)) same)
    | inr ge ↦ elim (Bool-cases (ltb u t)) [
      | inl more ↦ absurd (not_both u t pos live_u free_t (ground (arith, more)) (sym same))
      | inr le ↦ ground (arith, ge, le)
    ]
  ]
