-- ===== src/Ring/Slots.antt =====
-- When two operation numbers of the ring share a cell.
use shmdos.Prelude.{
  ℕ, suc, ◌+◌, ◌%◌, ◌/◌, ◌≤◌, ◌<◌, ◌≡◌, ◌≢◌, ◌∙◌, arith, inl, inr, ltb, Bool-cases,
}
use native.Mathlib.Nat.{div-add-mod, mul-le-mul_left, mul-suc, add-mod_right}

-- Numbers less than a size apart have different cells.
pub slots_differ : (s i j : ℕ) → i < j → j < i + s → i % s ≢ j % s
slots_differ s i j lt near same =
    let di = div-add-mod i s in
    let dj = div-add-mod j s in
    elim (Bool-cases (ltb (i / s) (j / s))) [
      | inl less ↦
          let le : suc (i / s) ≤ j / s = ground (arith, less) in
          let more = mul-le-mul_left s le in
          let step = mul-suc s (i / s) in omega (arith, di, dj, more, step, same, lt, near)
      | inr other ↦
          let le : j / s ≤ i / s = ground (arith, other) in
          let more = mul-le-mul_left s le in omega (arith, di, dj, more, same, lt)
    ]

-- Of two numbers in one cell that are less than two sizes apart, the larger is one size further.
pub same_slot-next : (s i j : ℕ) → i < j → j < i + s + s → i % s ≡ j % s → j ≡ i + s
same_slot-next s i j lt near same = elim (Bool-cases (ltb j (i + s))) [
  | inl before ↦ absurd (slots_differ s i j lt (ground (arith, before)) same)
  | inr after ↦ elim (Bool-cases (ltb (i + s) j)) [
    | inl beyond ↦
        absurd (slots_differ s (i + s) j (ground (arith, beyond)) near (add-mod_right i s ∙ same))
    | inr here ↦ ground (arith, after, here)
  ]
]
