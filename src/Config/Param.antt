-- ===== src/Config/Param.antt =====
-- `processParam` of uefi/config.cpp and what it calls: `kstricmp` of include/kclib.h, `strToIntEx` and
-- the tests of a character. A text is the list of its characters; behind the last one stands a 0.
use Prim.Native.Char.{code}
use Prim.Native.String.{String}
use shmdos.Prelude.{
  ℕ, ◌+◌, ◌-◌, ◌*◌, ◌%◌, ◌^◌, ◌==◌, leb, ltb, if◌then◌else◌, Bool, true, false, ◌&&◌, ◌||◌, List,
  [], ◌∷◌, ◌++◌, Option, none, some,
}
use shmdos.Prelude.Int.{ℤ, pos, negsuc}

abbrev pub Text : Type 0
Text = List ℕ

-- The code points of a literal.
abbrev pub codes : String → Text
codes String.[] = []
codes (String.◌∷◌ c s) = code c ∷ codes s

unfoldable pub isalpha : ℕ → Bool
isalpha c = (leb b'a' c && leb c b'z') || (leb b'A' c && leb c b'Z')

unfoldable pub isdigit : ℕ → Bool
isdigit c = leb b'0' c && leb c b'9'

unfoldable pub isalnum : ℕ → Bool
unfolding isalpha isdigit
isalnum c = isalpha c || isdigit c || c == b'_'

unfoldable pub ktoupper : ℕ → ℕ
ktoupper c = if leb b'a' c && leb c b'z' then c - 0x20 else c

abbrev order : ℕ → ℕ → ℤ
order a b = if ltb a b then negsuc 0 else pos 1

unfoldable pub kstricmp : Text → Text → ℤ
kstricmp [] [] = pos 0
kstricmp [] (b ∷ t) = if 0 == ktoupper b then pos 0 else order 0 b
kstricmp (a ∷ s) [] = if ktoupper a == 0 then (if a == 0 then pos 0 else order a 0) else order a 0
kstricmp (a ∷ s) (b ∷ t) =
    let rest = kstricmp s t in
    if ktoupper a == ktoupper b then (if a == 0 then pos 0 else rest) else order a b

abbrev pub uint_mod : ℕ
uint_mod = 2 ^ 32

-- The loop of `strToIntEx`. The test takes a `char`, so it sees the low byte of the character.
unfoldable pub read_digits : Text → ℕ → ℕ × Text
unfolding isdigit
read_digits [] val = (val, [])
read_digits (c ∷ s) val =
    let rest = read_digits s ((val * 10 % uint_mod + (c - b'0')) % uint_mod) in
    if isdigit (c % 256) then rest else (val, c ∷ s)

-- The number and the text behind it.
unfoldable pub str_to_int_ex : Text → Option (ℕ × Text)
unfolding isdigit read_digits
str_to_int_ex [] = none
str_to_int_ex (c ∷ s) = if isdigit (c % 256) then some (read_digits (c ∷ s) 0) else none

pub record SystemConfig : Type 0 where
  pub boot_modules : List Text
  pub kernel_name : Text
  pub screen_width : ℕ
  pub screen_height : ℕ
  pub boot_log_file_name : Text

abbrev pub default_config : SystemConfig
default_config = record {
  boot_modules = [];
  kernel_name = codes "kernel.exe";
  screen_width = 0;
  screen_height = 0;
  boot_log_file_name = [];
}

abbrev pub is_empty : Text → Bool
is_empty [] = true
is_empty (c ∷ s) = false

-- `front`, of a vector that always has an element.
abbrev pub front : List Text → Text
front [] = []
front (v ∷ vs) = v

unfoldable pub push_modules : List Text → List Text → List Text
push_modules ms [] = ms
push_modules ms (v ∷ vs) = push_modules (if is_empty v then ms else ms ++ v ∷ []) vs

-- The text behind an `x`.
abbrev pub after_x : Text → Option Text
after_x [] = none
after_x (c ∷ s) = if c == b'x' then some s else none

unfoldable pub screen_mode : Text → Option (ℕ × ℕ)
unfolding str_to_int_ex
screen_mode value = elim (str_to_int_ex value) [
  | none ↦ none
  | some (w, rest) ↦ elim (after_x rest) [
    | none ↦ none
    | some behind ↦ elim (str_to_int_ex behind) [ none ↦ none | some (h, end) ↦ some (w, h) ]
  ]
]

abbrev pub set_screen : SystemConfig → Option (ℕ × ℕ) → SystemConfig
set_screen c none = c
set_screen c (some (w, h)) = record c { screen_width = w; screen_height = h }

abbrev pub is_zero : ℤ → Bool
is_zero (pos n) = n == 0
is_zero (negsuc n) = false

unfoldable pub process_param : SystemConfig → Text → List Text → SystemConfig
unfolding kstricmp push_modules screen_mode
process_param c param values =
    if is_zero (kstricmp param (codes "kernel"))
    then (if is_empty (front values) then c else record c { kernel_name = front values })
    else if is_zero (kstricmp param (codes "bootload"))
    then record c { boot_modules = push_modules c.boot_modules values }
    else if is_zero (kstricmp param (codes "screenmode"))
    then set_screen c (screen_mode (front values))
    else if is_zero (kstricmp param (codes "bootlog"))
    then record c { boot_log_file_name = front values }
    else c
