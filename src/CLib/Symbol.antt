-- ===== src/CLib/Symbol.antt =====
-- Character classes: the attribute table of kernel/CLibImpl.cpp, and the tests that read it.
pub mod Classes
use shmdos.Prelude.{
  ℕ, ◌+◌, ◌-◌, ◌%◌, bit_and, bit_or, Bool, not, ◌&&◌, List, [], ◌∷◌, ◌++◌, replicate, get_or, leb,
  ◌==◌, if◌then◌else◌,
}

-- The bits of an attribute.
abbrev pub upper : ℕ
upper = 0x01

abbrev pub lower : ℕ
lower = 0x02

abbrev pub digit : ℕ
digit = 0x04

abbrev pub space : ℕ
space = 0x08

abbrev pub punct : ℕ
punct = 0x10

abbrev pub control : ℕ
control = 0x20

abbrev pub blank : ℕ
blank = 0x40

abbrev pub hex : ℕ
hex = 0x80

-- The rows 00 to 7F of the table.
ascii_attribute : List ℕ
ascii_attribute =
    replicate 9 control
    ++ (replicate 5 (bit_or space control)
        ++ (replicate 18 control
            ++ ((bit_or space blank) ∷ replicate 15 punct
                ++ (replicate 10 (bit_or digit hex)
                    ++ (replicate 7 punct
                        ++ (replicate 6 (bit_or upper hex)
                            ++ (replicate 20 upper
                                ++ (replicate 6 punct
                                    ++ (replicate 6 (bit_or lower hex)
                                        ++ (replicate 20 lower
                                            ++ (replicate 4 punct ++ (control ∷ []))))))))))))

-- The rows 80 to FF of the table, code page 866.
oem_attribute : List ℕ
oem_attribute =
    replicate 32 upper
    ++ (replicate 16 lower
        ++ (replicate 48 0
            ++ (replicate 16 lower
                ++ (upper
                      ∷ lower
                      ∷ upper
                      ∷ lower
                      ∷ upper
                      ∷ lower
                      ∷ upper
                      ∷ lower
                      ∷ replicate 7 punct
                    ++ (0 ∷ [])))))

symbol_attribute : List ℕ
unfolding ascii_attribute oem_attribute
symbol_attribute = ascii_attribute ++ oem_attribute

-- The index is the conversion to `unsigned char`.
unfoldable pub check_symbol : ℕ → ℕ → Bool
unfolding symbol_attribute
check_symbol c attr = not (bit_and (get_or symbol_attribute (c % 256) 0) attr == 0)

unfoldable pub isprint : ℕ → ℕ
unfolding check_symbol
isprint ch = if check_symbol ch control then 0 else 1

unfoldable pub isxdigit : ℕ → ℕ
unfolding check_symbol
isxdigit ch = if check_symbol ch hex then 1 else 0

unfoldable pub isspace : ℕ → ℕ
unfolding check_symbol
isspace ch = if check_symbol ch space then 1 else 0

-- `ktoupper<char>` and `ktolower<char>`: a char from 0x80 on is negative, so no range holds it.
unfoldable pub toupper : ℕ → ℕ
toupper c = if leb b'a' c && leb c b'z' then c - 0x20 else c

unfoldable pub tolower : ℕ → ℕ
tolower c = if leb b'A' c && leb c b'Z' then c + 0x20 else c
