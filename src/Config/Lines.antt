-- ===== src/Config/Lines.antt =====
-- The lines that a configuration file is meant to hold, how they are written, and what they stand for.
use shmdos.Prelude.{ℕ, ◌≡◌, ◌==◌, Bool, true, not, ◌&&◌, List, [], ◌∷◌, ◌++◌, map}
use shmdos.Config.Param.{Text, SystemConfig, isalnum, process_param}
use shmdos.Config.Parser.{char_to_unicode, is_newline, is_blank}

pub data Value : Type 0 where
  bare : Text → Value
  quoted : Text → Value

-- A setting has blanks on both sides of `=`. A cut setting has no value behind the last comma, or
-- none at all.
pub data Line : Type 0 where
  comment : Text → Line
  setting : (name before behind : Text) → List Value → Value → Line
  cut : (name before behind : Text) → List Value → Line

abbrev pub eol : Text
eol = b'\r' ∷ b'\n' ∷ []

abbrev pub print_value : Value → Text
print_value (bare t) = t
print_value (quoted t) = b'"' ∷ t ++ b'"' ∷ []

abbrev pub print_commas : List Value → Text
print_commas [] = []
print_commas (v ∷ vs) = print_value v ++ b',' ∷ print_commas vs

abbrev pub print_line : Line → Text
print_line (comment t) = b';' ∷ t ++ eol
print_line (setting name before behind vs v) =
    name ++ (before ++ b'=' ∷ (behind ++ (print_commas vs ++ (print_value v ++ eol))))
print_line (cut name before behind vs) =
    name ++ (before ++ b'=' ∷ (behind ++ (print_commas vs ++ eol)))

abbrev pub print_lines : List Line → Text
print_lines [] = []
print_lines (l ∷ ls) = print_line l ++ print_lines ls

abbrev pub unicode : Text → Text
unicode = map char_to_unicode

abbrev pub value_text : Value → Text
value_text (bare t) = unicode t
value_text (quoted t) = unicode t

-- What a line does to the configuration.
abbrev pub apply_line : SystemConfig → Line → SystemConfig
apply_line config (comment t) = config
apply_line config (setting name before behind vs v) =
    process_param config (unicode name) (map value_text vs ++ value_text v ∷ [])
apply_line config (cut name before behind vs) = process_param config (unicode name) ([] ∷ [])

abbrev pub apply_lines : SystemConfig → List Line → SystemConfig
apply_lines config [] = config
apply_lines config (l ∷ ls) = apply_lines (apply_line config l) ls

-- A character of a value without quotes, and one of a value in quotes.
unfoldable pub is_plain : ℕ → Bool
is_plain c = not (is_newline c) && (not (c == b',') && not (is_blank c))

unfoldable pub is_quotable : ℕ → Bool
is_quotable c = not (is_newline c) && not (c == b'"')

abbrev pub All {ℓ} : {A : Type ℓ} → (A → Type 0) → List A → Type 0
All P [] = Unit {0}
All P (x ∷ xs) = P x × All P xs

-- All characters pass the test.
abbrev pub Every : (ℕ → Bool) → Text → Type 0
Every test = All (λ c. test c ≡ true)

abbrev pub IsName : Text → Type 0
IsName [] = ⊥
IsName (c ∷ t) = (isalnum c ≡ true) × Every isalnum t

abbrev pub IsValue : Value → Type 0
IsValue (bare []) = ⊥
IsValue (bare (c ∷ t)) = (isalnum c ≡ true) × Every is_plain t
IsValue (quoted t) = Every is_quotable t

abbrev pub IsLine : Line → Type 0
IsLine (comment t) = Every (λ c. not (is_newline c)) t
IsLine (setting name before behind vs v) =
    IsName name × Every is_blank before × Every is_blank behind × All IsValue vs × IsValue v
IsLine (cut name before behind vs) =
    IsName name × Every is_blank before × Every is_blank behind × All IsValue vs
