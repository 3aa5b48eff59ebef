-- ===== src/CLib/Number/Hexadecimal.antt =====
-- The radix 16 of `kstrtoul`: at most 8 digits are read, and `end` is put behind the byte that ends
-- the number, where the other radixes put it at that byte.
use shmdos.Prelude.{
  ℕ, zero, suc, ◌+◌, ◌-◌, ◌*◌, ◌^◌, ◌≤◌, ◌<◌, ◌≡◌, ◌≢◌, refl, ap, ◌∙◌, false, Option, none, some,
  List, [], ◌∷◌, arith, ◌==◌, if◌then◌else◌, length,
}
use native.Mathlib.Nat.{pow-suc, pow-le-pow_right}
use shmdos.CLib.Symbol.Classes.{
  within, check_symbol-digit, check_symbol-hex, check_symbol-hex-upper,
}
use shmdos.CLib.Memory.{Memory}
use shmdos.CLib.Number.{ulong_mod, max_it, shift_in, skip_zeros, hex_loop, kstrtoul}

-- The digit that a byte stands for in radix 16.
unfoldable pub nibble : ℕ → Option ℕ
nibble c =
    if within b'0' b'9' c
    then some (c - b'0')
    else if within b'A' b'F' c
    then some (c - b'A' + 10)
    else (if within b'a' b'f' c then some (c - b'a' + 10) else none)

-- From `p` on the memory holds bytes that stand for these digits.
abbrev pub HexHolds : Memory → ℕ → List ℕ → Type 0
HexHolds m p [] = Unit {0}
HexHolds m p (d ∷ ds) = (m p < 256) × (nibble (m p) ≡ some d) × HexHolds m (p + 1) ds

unfoldable pub hex_value : ℕ → List ℕ → ℕ
hex_value v [] = v
hex_value v (d ∷ ds) = hex_value (v * 16 + d) ds

nibble-lt : (c d : ℕ) → nibble c ≡ some d → d < 16
unfolding nibble
nibble-lt c d h = ground arith

hex_loop-digit :
    (it : ℕ) (m : Memory) (v p d : ℕ)
    → m p < 256
    → nibble (m p) ≡ some d
    → hex_loop (suc it) m v p ≡ hex_loop it m (shift_in v d) (p + 1)
unfolding nibble hex_loop
hex_loop-digit it m v p d lt h =
    ground (arith, check_symbol-digit (m p), check_symbol-hex (m p), check_symbol-hex-upper (m p))

hex_loop-stop :
    (it : ℕ) (m : Memory) (v p : ℕ)
    → m p < 256
    → nibble (m p) ≡ none
    → hex_loop (suc it) m v p ≡ (v, p + 1)
unfolding nibble hex_loop
hex_loop-stop it m v p lt h = ground (arith, check_symbol-digit (m p), check_symbol-hex (m p))

hex_value-ge : (v : ℕ) (ds : List ℕ) → v ≤ hex_value v ds
unfolding hex_value
hex_value-ge v [] = omega arith
hex_value-ge v (d ∷ ds) = omega (arith, hex_value-ge (v * 16 + d) ds)

-- At most `it` digits, then a byte that is none: the loop gives their value, and `end` one behind.
hex_loop-value :
    (it : ℕ) (m : Memory) (v p : ℕ) (ds : List ℕ)
    → HexHolds m p ds
    → m (p + length ds) < 256
    → nibble (m (p + length ds)) ≡ none
    → length ds < it
    → hex_value v ds < ulong_mod
    → hex_loop it m v p ≡ (hex_value v ds, p + length ds + 1)
unfolding hex_value
hex_loop-value zero m v p ds h lt stop few fits = absurd (omega arith)
hex_loop-value (suc it) m v p [] h lt stop few fits =
    hex_loop-stop it m v p (rw (← right_zero) lt) (rw (← right_zero) stop)
    ∙ ap (λ e. (v, e)) (omega arith)
  where
    right_zero : p + 0 ≡ p
    right_zero = omega arith
hex_loop-value (suc it) m v p (d ∷ ds) h lt stop few fits =
    hex_loop-digit it m v p d h.0 h.1
    ∙ (rw (shifted, end)
        (hex_loop-value it m (v * 16 + d) (p + 1) ds h.2 (rw (← end) lt) (rw (← end) stop)
          (omega arith) fits))
  where
    shifted : shift_in v d ≡ v * 16 + d
    shifted = omega (arith, hex_value-ge (v * 16 + d) ds)

    end : p + suc (length ds) ≡ p + 1 + length ds
    end = omega arith

mul_mono : (a b k : ℕ) → a ≤ b → a * k ≤ b * k
mul_mono a b k h = grind arith

hex_value-lt :
    (m : Memory) (v p : ℕ) (ds : List ℕ)
    → HexHolds m p ds
    → hex_value v ds < (v + 1) * 16 ^ length ds
unfolding hex_value
hex_value-lt m v p [] h = omega arith
hex_value-lt m v p (d ∷ ds) h = rw (pow-suc 16 (length ds)) (
    omega (
      arith,
      hex_value-lt m (v * 16 + d) (p + 1) ds h.2,
      mul_mono (v * 16 + d + 1) ((v + 1) * 16) (16 ^ length ds)
          (omega (arith, nibble-lt (m p) d h.1)),
    ))

hex_value-fits :
    (m : Memory) (p : ℕ) (ds : List ℕ)
    → HexHolds m p ds
    → length ds < max_it
    → hex_value 0 ds < ulong_mod
hex_value-fits m p ds h few =
    let top : 16 ^ length ds ≤ 16 ^ 8 =
      pow-le-pow_right (omega arith) {i = length ds} {j = 8} (omega arith) in
    omega (arith, top, hex_value-lt m 0 p ds h)

-- In radix 16, a run of at most 7 hexadecimal digits that does not begin with '0' and is ended by a
-- byte that is no such digit is read as its value; `end` points one byte behind the byte that ends
-- the run.
pub kstrtoul-hex_value :
    (fuel : ℕ) (m : Memory) (p : ℕ) (ds : List ℕ)
    → HexHolds m p ds
    → m p ≢ b'0'
    → m (p + length ds) < 256
    → nibble (m (p + length ds)) ≡ none
    → length ds < max_it
    → kstrtoul (suc fuel) m p 16 ≡ some (hex_value 0 ds, some (p + length ds + 1))
unfolding kstrtoul skip_zeros
kstrtoul-hex_value fuel m p ds h ne lt stop few =
    let first : (m p == b'0') ≡ false = ground arith in
    let read = hex_loop-value max_it m 0 p ds h lt stop few (hex_value-fits m p ds h few) in
    rw (first, kstrtoul) (rw (read, kstrtoul) refl)
