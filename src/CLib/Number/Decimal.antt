-- ===== src/CLib/Number/Decimal.antt =====
-- The radixes 2 to 10 of `kstrtoul`: a run of digits whose value fits is read exactly.
use shmdos.Prelude.{
  ℕ, zero, suc, ◌+◌, ◌-◌, ◌*◌, ◌%◌, ◌≤◌, ◌<◌, ◌≡◌, ◌≢◌, refl, ap, ◌∙◌, true, false, ◌&&◌, some,
  List, [], ◌∷◌, arith, ltb, leb, ◌==◌, length,
}
use native.Mathlib.Nat.{mod-add-div'}
use shmdos.CLib.Symbol.Classes.{check_symbol-digit}
use shmdos.CLib.Memory.{Memory}
use shmdos.CLib.Number.{ulong_mod, skip_zeros, goes_on, decimal_loop, kstrtoul}

-- From `p` on the memory holds these digits.
abbrev pub Holds : Memory → ℕ → List ℕ → Type 0
Holds m p [] = Unit {0}
Holds m p (d ∷ ds) = (m p ≡ b'0' + d) × Holds m (p + 1) ds

abbrev pub AllBelow : ℕ → List ℕ → Type 0
AllBelow radix [] = Unit {0}
AllBelow radix (d ∷ ds) = (d < radix) × AllBelow radix ds

-- The number that the digits stand for, behind the digits of `v`.
unfoldable pub value : ℕ → ℕ → List ℕ → ℕ
value radix v [] = v
value radix v (d ∷ ds) = value radix (v * radix + d) ds

-- The byte at `p` is no digit below the radix.
abbrev pub Stops : Memory → ℕ → ℕ → Type 0
Stops m radix p = (m p < 256) × ((d : ℕ) → d < radix → m p ≢ b'0' + d)

step-ge : (v radix d : ℕ) → 2 ≤ radix → v ≤ v * radix + d
step-ge v radix d h = grind arith

value-ge : (radix v : ℕ) (ds : List ℕ) → 2 ≤ radix → v ≤ value radix v ds
unfolding value
value-ge radix v [] h = omega arith
value-ge radix v (d ∷ ds) h =
    omega (arith, step-ge v radix d h, value-ge radix (v * radix + d) ds h)

mul-ge : (v radix : ℕ) → 2 ≤ radix → v ≤ v * radix
mul-ge v radix h = grind arith

goes_on-digit : (radix c d : ℕ) → radix ≤ 10 → d < radix → c ≡ b'0' + d → goes_on radix c ≡ true
unfolding goes_on
goes_on-digit radix c d le lt e = ground (arith, check_symbol-digit c)

goes_on-stop :
    (radix c : ℕ) → c < 256 → ((d : ℕ) → d < radix → c ≢ b'0' + d) → goes_on radix c ≡ false
unfolding goes_on
goes_on-stop radix c lt h = ground (arith, check_symbol-digit c lt, h (c - b'0'))

decimal_loop-value :
    (f : ℕ) (m : Memory) (radix v p : ℕ) (ds : List ℕ)
    → 2 ≤ radix
    → radix ≤ 10
    → Holds m p ds
    → AllBelow radix ds
    → Stops m radix (p + length ds)
    → value radix v ds < ulong_mod
    → length ds < f
    → decimal_loop f m radix v p ≡ some (value radix v ds, p + length ds)
unfolding value decimal_loop
decimal_loop-value zero m radix v p ds lo hi h b s fits fuel = absurd (omega arith)
decimal_loop-value (suc f) m radix v p [] lo hi h b s fits fuel =
    rw (goes_on-stop radix (m p) (rw (← right_zero) s.0) (λ d k. rw (← right_zero) (s.1 d k)))
      (ground arith)
  where
    right_zero : p + 0 ≡ p
    right_zero = omega arith
decimal_loop-value (suc f) m radix v p (d ∷ ds) lo hi h b s fits fuel =
    rw (goes_on-digit radix (m p) d hi b.0 h.0, product, lt_false)
      (rw (sum, end)
        (decimal_loop-value f m radix (v * radix + d) (p + 1) ds lo hi h.1 b.1 (rw (← end) s) fits
          (omega arith)))
  where
    small : v * radix + d < ulong_mod
    small = omega (arith, value-ge radix (v * radix + d) ds lo)

    product : v * radix % ulong_mod ≡ v * radix
    product = omega (arith, small)

    lt_false : ltb (v * radix) v ≡ false
    lt_false = ground (arith, mul-ge v radix lo)

    sum : (v * radix + (m p - b'0')) % ulong_mod ≡ v * radix + d
    sum = omega (arith, small, h.0)

    end : p + suc (length ds) ≡ p + 1 + length ds
    end = omega arith

-- The zeros that `skip_zeros` passes: what is left holds the same number and ends at the same byte.
record Skipped (m : Memory) (radix p : ℕ) (ds : List ℕ) (q : ℕ) (es : List ℕ) : Type 0 where
  holds : Holds m q es
  below : AllBelow radix es
  ends : q + length es ≡ p + length ds
  same : value radix 0 es ≡ value radix 0 ds
  shorter : length es ≤ length ds

skip_zeros-Skipped :
    (f : ℕ) (m : Memory) (radix p : ℕ) (ds : List ℕ)
    → 2 ≤ radix
    → Holds m p ds
    → AllBelow radix ds
    → Stops m radix (p + length ds)
    → length ds < f
    → (q : ℕ) × (es : List ℕ) × (skip_zeros f m p ≡ some q) × Skipped m radix p ds q es
unfolding skip_zeros value
skip_zeros-Skipped zero m radix p ds lo h b s fuel = absurd (omega arith)
skip_zeros-Skipped (suc f) m radix p [] lo h b s fuel = (
  p,
  [],
  ground (arith, s.1 0, right_zero),
  record { holds = tt; below = tt; ends = refl; same = refl; shorter = omega arith },
)
  where
    right_zero : m (p + 0) ≡ m p
    right_zero = ap m (omega arith)
skip_zeros-Skipped (suc f) m radix p (zero ∷ ds) lo h b s fuel =
    let end : p + suc (length ds) ≡ p + 1 + length ds = omega arith in
    let (q, es, found, rest) =
      skip_zeros-Skipped f m radix (p + 1) ds lo h.1 b.1 (rw (← end) s) (omega arith) in
    (
      q,
      es,
      ground arith,
      record {
        holds = rest.holds;
        below = rest.below;
        ends = omega (arith, rest.ends);
        same = rest.same ∙ ap (λ v. value radix v ds) (omega arith);
        shorter = omega (arith, rest.shorter);
      },
    )
skip_zeros-Skipped (suc f) m radix p (suc d ∷ ds) lo h b s fuel = (
  p,
  suc d ∷ ds,
  ground arith,
  record { holds = h; below = b; ends = refl; same = refl; shorter = omega arith },
)

-- In a radix from 2 to 10, a run of digits below the radix whose value is below 2^32, with leading
-- zeros or not, ended by a byte that is no such digit, is read as its value, and `end` points at
-- the byte behind it. Fuel beyond the number of digits is enough.
pub kstrtoul-value :
    (fuel : ℕ) (m : Memory) (radix p : ℕ) (ds : List ℕ)
    → 2 ≤ radix
    → radix ≤ 10
    → Holds m p ds
    → AllBelow radix ds
    → Stops m radix (p + length ds)
    → value radix 0 ds < ulong_mod
    → length ds < fuel
    → kstrtoul fuel m p radix ≡ some (value radix 0 ds, some (p + length ds))
unfolding kstrtoul
kstrtoul-value fuel m radix p ds lo hi h b s fits enough =
    let (q, es, found, k) = skip_zeros-Skipped fuel m radix p ds lo h b s enough in
    let read =
      decimal_loop-value fuel m radix 0 q es lo hi k.holds k.below (rw k.ends s) (rw k.same fits)
        (omega (arith, k.shorter)) in
    let tests : (leb 2 radix && leb radix 10) ≡ true = ground arith in
    rw (found, kstrtoul) (rw tests (rw (read, kstrtoul) (rw (k.ends, k.same) refl)))

-- Every product that the loop forms, wrapped to 32 bits, is at least the value before it.
abbrev pub Unnoticed : ℕ → ℕ → List ℕ → Type 0
Unnoticed radix v [] = Unit {0}
Unnoticed radix v (d ∷ ds) =
    (v ≤ v * radix % ulong_mod) × Unnoticed radix ((v * radix % ulong_mod + d) % ulong_mod) ds

mul-mod : (v radix : ℕ) → v * radix % ulong_mod ≡ v % ulong_mod * radix % ulong_mod
mul-mod v radix = omega (arith, ap (λ (t : ℕ). t * radix) (mod-add-div' v ulong_mod))

value-mod :
    (radix v w : ℕ) (ds : List ℕ)
    → v % ulong_mod ≡ w % ulong_mod
    → value radix v ds % ulong_mod ≡ value radix w ds % ulong_mod
unfolding value
value-mod radix v w [] h = h
value-mod radix v w (d ∷ ds) h =
    value-mod radix (v * radix + d) (w * radix + d) ds
      (omega (arith, mul-mod v radix, mul-mod w radix, ap (λ (t : ℕ). t * radix % ulong_mod) h))

-- The loop keeps the number modulo 2^32 where no wrap-around is noticed.
decimal_loop-mod :
    (f : ℕ) (m : Memory) (radix v p : ℕ) (ds : List ℕ)
    → 2 ≤ radix
    → radix ≤ 10
    → v < ulong_mod
    → Holds m p ds
    → AllBelow radix ds
    → Stops m radix (p + length ds)
    → Unnoticed radix v ds
    → length ds < f
    → decimal_loop f m radix v p ≡ some (value radix v ds % ulong_mod, p + length ds)
unfolding value decimal_loop
decimal_loop-mod zero m radix v p ds lo hi lt h b s un fuel = absurd (omega arith)
decimal_loop-mod (suc f) m radix v p [] lo hi lt h b s un fuel =
    rw (goes_on-stop radix (m p) (rw (← right_zero) s.0) (λ d k. rw (← right_zero) (s.1 d k)))
      (ground arith)
  where
    right_zero : p + 0 ≡ p
    right_zero = omega arith
decimal_loop-mod (suc f) m radix v p (d ∷ ds) lo hi lt h b s un fuel =
    rw (goes_on-digit radix (m p) d hi b.0 h.0, lt_false)
      (rw (digit_of, end, mod_step)
        (decimal_loop-mod f m radix next (p + 1) ds lo hi (omega arith) h.1 b.1 (rw (← end) s) un.1
          (omega arith)))
  where
    next : ℕ
    next = (v * radix % ulong_mod + d) % ulong_mod

    lt_false : ltb (v * radix % ulong_mod) v ≡ false
    lt_false = ground (arith, un.0)

    digit_of : m p - b'0' ≡ d
    digit_of = omega (arith, h.0)

    end : p + suc (length ds) ≡ p + 1 + length ds
    end = omega arith

    mod_step : value radix (v * radix + d) ds % ulong_mod ≡ value radix next ds % ulong_mod
    mod_step = value-mod radix (v * radix + d) next ds (omega arith)

-- Where a number is too large but no product looks smaller than the value before it, the result is
-- the number modulo 2^32 and not the saturated value: on the digits `ds`, of which the first is not
-- zero, `kstrtoul` returns `value radix 0 ds % 2^32`.
pub kstrtoul-mod :
    (fuel : ℕ) (m : Memory) (radix p d : ℕ) (ds : List ℕ)
    → 2 ≤ radix
    → radix ≤ 10
    → d ≢ 0
    → Holds m p (d ∷ ds)
    → AllBelow radix (d ∷ ds)
    → Stops m radix (p + length (d ∷ ds))
    → Unnoticed radix 0 (d ∷ ds)
    → length (d ∷ ds) < fuel
    → kstrtoul fuel m p radix
      ≡ some (value radix 0 (d ∷ ds) % ulong_mod, some (p + length (d ∷ ds)))
unfolding kstrtoul skip_zeros
kstrtoul-mod zero m radix p d ds lo hi ne h b s un enough = absurd (omega arith)
kstrtoul-mod (suc f) m radix p d ds lo hi ne h b s un enough =
    let read = decimal_loop-mod (suc f) m radix 0 p (d ∷ ds) lo hi (omega arith) h b s un enough in
    let tests : (leb 2 radix && leb radix 10) ≡ true = ground arith in
    let first : (m p == b'0') ≡ false = ground (arith, h.0) in
    rw (first, kstrtoul) (rw tests (rw (read, kstrtoul) refl))
