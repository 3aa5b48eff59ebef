-- ===== src/CLib/Number.antt =====
-- `kstrtoul` of kernel/CLibImpl.cpp. A pointer is an address of the byte memory; `unsigned long` has
-- 32 bits, as in the MinGW build. A loop that runs out of fuel gives `none`; a result is the value
-- with what is stored through `end`, if anything is.
pub mod Decimal
pub mod Hexadecimal
use shmdos.Prelude.{
  ℕ, zero, suc, ◌+◌, ◌-◌, ◌*◌, ◌%◌, ◌^◌, Bool, not, ◌&&◌, Option, none, some, ltb, leb, ◌==◌,
  if◌then◌else◌,
}
use shmdos.CLib.Memory.{Memory}
use shmdos.CLib.Symbol.{digit, hex, upper, check_symbol}

abbrev pub ulong_mod : ℕ
ulong_mod = 2 ^ 32

-- `sizeof(unsigned long) * 2`
abbrev pub max_it : ℕ
max_it = 8

-- `while (*start == '0') start++;`
unfoldable pub skip_zeros : ℕ → Memory → ℕ → Option ℕ
skip_zeros zero m start = none
skip_zeros (suc f) m start =
    let rest = skip_zeros f m (start + 1) in if m start == b'0' then rest else some start

-- Whether the loop of the radixes 2 to 10 goes on at the byte `c`.
unfoldable pub goes_on : ℕ → ℕ → Bool
goes_on radix c = not (c == 0) && check_symbol c digit && ltb (c - b'0') radix

-- The value saturates if the product looks smaller than the value; the sum has no such test.
unfoldable pub decimal_loop : ℕ → Memory → ℕ → ℕ → ℕ → Option (ℕ × ℕ)
unfolding goes_on
decimal_loop zero m radix val start = none
decimal_loop (suc f) m radix val start =
    let tmp = val * radix % ulong_mod in
    let rest = decimal_loop f m radix ((tmp + (m start - b'0')) % ulong_mod) (start + 1) in
    if goes_on radix (m start)
    then (if ltb tmp val then some (ulong_mod - 1, start) else rest)
    else some (val, start)

-- `val <<= 4; val |= nibble;`
abbrev pub shift_in : ℕ → ℕ → ℕ
shift_in val nibble = (val * 16 + nibble) % ulong_mod

-- `it` rounds are left; `start` is advanced past each byte that is read, the last one included.
unfoldable pub hex_loop : ℕ → Memory → ℕ → ℕ → ℕ × ℕ
hex_loop zero m val start = (if check_symbol (m start) hex then ulong_mod - 1 else val, start)
hex_loop (suc it) m val start =
    let c = m start in
    let as_digit = hex_loop it m (shift_in val (c - b'0')) (start + 1) in
    let as_upper = hex_loop it m (shift_in val (c - b'A' + 10)) (start + 1) in
    let as_lower = hex_loop it m (shift_in val (c - b'a' + 10)) (start + 1) in
    if check_symbol c digit
    then as_digit
    else if check_symbol c hex
    then (if check_symbol c upper then as_upper else as_lower)
    else (val, start + 1)

unfoldable pub kstrtoul : ℕ → Memory → ℕ → ℕ → Option (ℕ × Option ℕ)
unfolding skip_zeros decimal_loop hex_loop
kstrtoul fuel m start radix = elim (skip_zeros fuel m start) [
  | none ↦ none
  | some p ↦
      if leb 2 radix && leb radix 10
      then elim (decimal_loop fuel m radix 0 p) [
        | none ↦ none
        | some (val, end) ↦ some (val, some end)
      ]
      else if radix == 16
      then (let (val, end) = hex_loop max_it m 0 p in some (val, some end))
      else some (0, none)
]
