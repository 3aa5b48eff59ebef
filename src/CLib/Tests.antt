-- ===== src/CLib/Tests.antt =====
-- Runs of the C library functions on small memories, and its theorems at concrete inputs.
use shmdos.Prelude.{
  ℕ, zero, suc, ◌-◌, ◌≡◌, ◌≢◌, ◌+◌, ◌<◌, refl, none, some, List, [], ◌∷◌, arith, ltb, if◌then◌else◌,
  get_or,
}
use shmdos.Prelude.Int.{negsuc}
use shmdos.CLib.Symbol.{check_symbol}
use shmdos.CLib.Memory.{Memory, memmove, memcmp}
use shmdos.CLib.Memory.Copy.{moved, memmove-moved}
use shmdos.CLib.Number.{kstrtoul}
use shmdos.CLib.Text.{kstrncpy}
use shmdos.CLib.Text.Copy.{IsText, kstrncpy-empty}
use shmdos.CLib.Number.Decimal.{value, kstrtoul-value, kstrtoul-mod}
use shmdos.CLib.Number.Hexadecimal.{hex_value, nibble, kstrtoul-hex_value}

-- The memory that holds these bytes from address 100 on.
abbrev text : List ℕ → Memory
text bytes x = if ltb x 100 then 0 else get_or bytes (x - 100) 0

-- "0042;"
abbrev forty_two : Memory
forty_two = text (b'0' ∷ b'0' ∷ b'4' ∷ b'2' ∷ b';' ∷ [])

-- "4294967299"
abbrev too_large : Memory
too_large = text (b'4' ∷ b'2' ∷ b'9' ∷ b'4' ∷ b'9' ∷ b'6' ∷ b'7' ∷ b'2' ∷ b'9' ∷ b'9' ∷ [])

-- "fF "
abbrev hex_text : Memory
hex_text = text (b'f' ∷ b'F' ∷ b' ' ∷ [])

kstrtoul_runs :
    (kstrtoul 20 forty_two 100 10 ≡ some (42, some 104))
    × (kstrtoul 20 too_large 100 10 ≡ some (3, some 110))
    × (kstrtoul 20 hex_text 100 16 ≡ some (255, some 103))
    × (kstrtoul 20 hex_text 100 12 ≡ some (0, none))
unfolding kstrtoul check_symbol
kstrtoul_runs = (refl, refl, refl, refl)

memmove_example : (memmove forty_two 101 100 4).0 104 ≡ b'2'
unfolding memmove
memmove_example = refl

memcmp_run : memcmp 4 forty_two 100 102 ≡ negsuc 0
unfolding memcmp
memcmp_run = refl

kstrtoul-value_example : kstrtoul 20 forty_two 100 10 ≡ some (42, some 104)
unfolding value
kstrtoul-value_example =
    kstrtoul-value 20 forty_two 10 100 (0 ∷ 0 ∷ 4 ∷ 2 ∷ []) (omega arith) (omega arith)
      (omega arith) (omega arith) (omega arith, λ d lt. omega arith) (omega arith) (omega arith)

kstrtoul-mod_example : kstrtoul 20 too_large 100 10 ≡ some (3, some 110)
unfolding value
kstrtoul-mod_example =
    kstrtoul-mod 20 too_large 10 100 4 (2 ∷ 9 ∷ 4 ∷ 9 ∷ 6 ∷ 7 ∷ 2 ∷ 9 ∷ 9 ∷ []) (omega arith)
      (omega arith) (omega arith) (omega arith) (omega arith) (omega arith, λ d lt. omega arith)
      (omega arith) (omega arith)

kstrtoul-hex_value_example : kstrtoul 20 hex_text 100 16 ≡ some (255, some 103)
unfolding hex_value nibble
kstrtoul-hex_value_example =
    kstrtoul-hex_value 19 hex_text 100 (15 ∷ 15 ∷ []) (omega arith, refl, (omega arith, refl, tt))
      (omega arith) (omega arith) refl (omega arith)

memmove-moved_example : memmove forty_two 101 100 4 ≡ (moved 4 forty_two 101 100, 101)
memmove-moved_example = memmove-moved forty_two 101 100 4

-- "ab"
abbrev ab : Memory
ab = text (b'a' ∷ b'b' ∷ [])

-- "ab" with "c" behind its 0.
abbrev ab_c : Memory
ab_c = text (b'a' ∷ b'b' ∷ 0 ∷ b'c' ∷ [])

-- An empty text with "b" behind it.
abbrev empty_b : Memory
empty_b = text (0 ∷ b'b' ∷ [])

ab-byte : (i : ℕ) → i < 2 → ab (100 + i) ≢ 0
ab-byte zero lt = omega arith
ab-byte (suc zero) lt = omega arith
ab-byte (suc (suc i)) lt = absurd (omega arith)

ab-IsText : IsText ab 100 2
ab-IsText = (ab-byte, refl)

ab_c-byte : (i : ℕ) → i < 1 → ab_c (103 + i) ≢ 0
ab_c-byte zero lt = omega arith
ab_c-byte (suc i) lt = absurd (omega arith)

ab_c-first_byte : (i : ℕ) → i < 2 → ab_c (100 + i) ≢ 0
ab_c-first_byte zero lt = omega arith
ab_c-first_byte (suc zero) lt = omega arith
ab_c-first_byte (suc (suc i)) lt = absurd (omega arith)

kstrncpy-empty_example : kstrncpy empty_b 200 100 2 201 ≡ b'b'
kstrncpy-empty_example = kstrncpy-empty empty_b 200 100 refl (omega arith) (omega arith)
