-- ===== src/Config/RoundTrip.antt =====
-- A file that is written line by line is read back line by line.
use shmdos.Prelude.{ℕ, ◌≡◌, refl, ap, ◌∙◌, true, false, some, List, [], ◌∷◌, ◌++◌, map}
use mathlib.Core.List.{append-nil, append_assoc}
use shmdos.Config.Param.{
  Text, SystemConfig, isalnum, isalpha, isdigit, process_param, push_modules, kstricmp, ktoupper,
  codes,
}
use shmdos.Config.Parser.{
  line_start, skip_line, in_name, before_value, in_quotes, in_value, after_value, Parser, step,
  step_in, run, char_to_unicode, is_blank, initial, finish_in, parse_file,
}
use shmdos.Config.Total.{parse_file-finish}
use shmdos.Config.Lines.{
  Value, bare, quoted, Line, comment, setting, cut, eol, print_value, print_commas, print_line,
  print_lines, unicode, value_text, apply_line, apply_lines, All, Every, IsName, IsValue, IsLine,
}
use shmdos.Config.Fields.{
  at, run-read, run-pass, run-pass_twice, is_plain-isalnum, step-plain, run-plain, run-quotable,
  run-behind, run-name, run-name_equals, run-comment,
}

-- The parser behind a value whose end it has not seen, or has seen at the quotes.
at_end : Value → Text → List Text → SystemConfig → Parser
at_end (bare t) n vs k = at in_value n vs (unicode t) k
at_end (quoted t) n vs k = at after_value n (vs ++ unicode t ∷ []) [] k

module _ (n : Text) (k : SystemConfig) where
  step-first :
      (vs : List Text) (c : ℕ)
      → isalnum c ≡ true
      → step (at before_value n vs [] k) c ≡ (at in_value n vs [] k, false)
  unfolding step_in
  step-first vs c e = rw e refl

  run-value :
      (vs : List Text) (v : Value) (s : Text)
      → IsValue v
      → run (at before_value n vs [] k) (print_value v ++ s) ≡ run (at_end v n vs k) s
  unfolding at_end step_in isalnum isalpha isdigit
  run-value vs (bare []) s e = absurd e
  run-value vs (bare (c ∷ t)) s e =
      run-pass _ c (t ++ s) _ _ (step-first vs c e.0)
        (step-plain n vs k [] c (is_plain-isalnum c e.0))
      ∙ run-plain n vs k (char_to_unicode c ∷ []) t s e.1
  run-value vs (quoted t) s e =
      run-read _ b'"' ((t ++ b'"' ∷ []) ++ s) _ refl
      ∙ ap (run (at in_quotes n vs [] k)) (append_assoc t (b'"' ∷ []) s)
      ∙ run-quotable n vs k [] t (b'"' ∷ s) e
      ∙ run-read _ b'"' s _ refl

  run-comma :
      (vs : List Text) (v : Value) (s : Text)
      → run (at_end v n vs k) (b',' ∷ s) ≡ run (at before_value n (vs ++ value_text v ∷ []) [] k) s
  unfolding at_end step_in
  run-comma vs (bare t) s = run-read _ b',' s _ refl
  run-comma vs (quoted t) s = run-read _ b',' s _ refl

  run-commas :
      (vs : List Text) (ws : List Value) (s : Text)
      → All IsValue ws
      → run (at before_value n vs [] k) (print_commas ws ++ s)
        ≡ run (at before_value n (vs ++ map value_text ws) [] k) s
  run-commas vs [] s e = rw append-nil refl
  run-commas vs (w ∷ ws) s e =
      ap (run (at before_value n vs [] k)) (append_assoc (print_value w) (b',' ∷ print_commas ws) s)
      ∙ run-value vs w (b',' ∷ (print_commas ws ++ s)) e.0
      ∙ run-comma vs w (print_commas ws ++ s)
      ∙ run-commas (vs ++ value_text w ∷ []) ws s e.1
      ∙ ap (λ u. run (at before_value n u [] k) s)
          (append_assoc vs (value_text w ∷ []) (map value_text ws))

  -- The second character of the end of a line falls into the next one, which leaves it alone.
  run-newline :
      (s : Text) → run (at line_start [] [] [] k) (b'\n' ∷ s) ≡ run (at line_start [] [] [] k) s
  unfolding step_in isalnum isalpha isdigit
  run-newline s = run-read _ b'\n' s _ refl

module _ (n : Text) (k : SystemConfig) where
  run-eol :
      (vs : List Text) (v : Value) (s : Text)
      → run (at_end v n vs k) (eol ++ s)
        ≡ run (at line_start [] [] [] (process_param k n ((vs ++ value_text v ∷ []) ++ [] ∷ []))) s
  unfolding at_end step_in
  run-eol vs (bare t) s =
      run-pass_twice _ b'\r' (b'\n' ∷ s) _ _ _ refl refl refl
      ∙ run-newline n (process_param k n ((vs ++ unicode t ∷ []) ++ [] ∷ [])) s
  run-eol vs (quoted t) s =
      run-pass_twice _ b'\r' (b'\n' ∷ s) _ _ _ refl refl refl
      ∙ run-newline n (process_param k n ((vs ++ unicode t ∷ []) ++ [] ∷ [])) s

  run-cut :
      (vs : List Text) (s : Text)
      → run (at before_value n vs [] k) (eol ++ s)
        ≡ run (at line_start [] [] [] (process_param k n ([] ∷ []))) s
  unfolding step_in isalnum isalpha isdigit
  run-cut vs s =
      run-pass_twice _ b'\r' (b'\n' ∷ s) _ _ _ refl refl refl
      ∙ run-newline n (process_param k n ([] ∷ [])) s

-- An empty value behind the others changes nothing.
push_modules-pad : (ms vs : List Text) → push_modules ms (vs ++ [] ∷ []) ≡ push_modules ms vs
unfolding push_modules
push_modules-pad ms [] = refl
push_modules-pad ms (v ∷ vs) = push_modules-pad _ vs

process_param-pad :
    (k : SystemConfig) (n v : Text) (vs : List Text)
    → process_param k n ((v ∷ vs) ++ [] ∷ []) ≡ process_param k n (v ∷ vs)
unfolding process_param
process_param-pad k n v vs = rw (push_modules-pad k.boot_modules (v ∷ vs)) refl

process_param-texts :
    (k : SystemConfig) (n : Text) (vs : List Text) (v : Text)
    → process_param k n ((vs ++ v ∷ []) ++ [] ∷ []) ≡ process_param k n (vs ++ v ∷ [])
process_param-texts k n [] v = process_param-pad k n v []
process_param-texts k n (w ∷ vs) v = process_param-pad k n w (vs ++ v ∷ [])

-- The part of a line in front of its values.
run-head :
    (k : SystemConfig) (name before behind s : Text)
    → IsName name
    → Every is_blank before
    → Every is_blank behind
    → run (initial k) (name ++ (before ++ b'=' ∷ (behind ++ s)))
      ≡ run (at before_value (unicode name) [] [] k) s
unfolding step_in
run-head k [] before behind s e f g = absurd e
run-head k (c ∷ name) before behind s e f g =
    let first : step (initial k) c ≡ (at in_name (char_to_unicode c ∷ []) [] [] k, true) =
      rw e.0 refl in
    run-read (initial k) c (name ++ (before ++ b'=' ∷ (behind ++ s))) _ first
    ∙ run-name [] [] k (char_to_unicode c ∷ []) name (before ++ b'=' ∷ (behind ++ s)) e.1
    ∙ run-name_equals [] [] k (unicode (c ∷ name)) before (behind ++ s) f
    ∙ run-behind (unicode (c ∷ name)) [] k [] behind s g

run-line :
    (k : SystemConfig) (l : Line) (s : Text)
    → IsLine l
    → run (initial k) (print_line l ++ s) ≡ run (initial (apply_line k l)) s
unfolding step_in isalnum isalpha isdigit
run-line k (comment t) s e =
    run-read (initial k) b';' ((t ++ eol) ++ s) (at skip_line [] [] [] k) refl
    ∙ ap (run (at skip_line [] [] [] k)) (append_assoc t eol s)
    ∙ run-comment [] [] k [] t (eol ++ s) e
    ∙ run-read (at skip_line [] [] [] k) b'\r' (b'\n' ∷ s) (initial k) refl
    ∙ run-newline [] k s
run-line k (setting name before behind vs v) s e =
    ap (run (initial k)) (simp append_assoc)
    ∙ run-head k name before behind (print_commas vs ++ (print_value v ++ (eol ++ s))) e.0 e.1 e.2
    ∙ run-commas (unicode name) k [] vs (print_value v ++ (eol ++ s)) e.3
    ∙ run-value (unicode name) k (map value_text vs) v (eol ++ s) e.4
    ∙ run-eol (unicode name) k (map value_text vs) v s
    ∙ ap (λ c. run (initial c) s)
        (process_param-texts k (unicode name) (map value_text vs) (value_text v))
run-line k (cut name before behind vs) s e =
    ap (run (initial k)) (simp append_assoc)
    ∙ run-head k name before behind (print_commas vs ++ (eol ++ s)) e.0 e.1 e.2
    ∙ run-commas (unicode name) k [] vs (eol ++ s) e.3
    ∙ run-cut (unicode name) k (map value_text vs) s

run-lines :
    (k : SystemConfig) (ls : List Line)
    → All IsLine ls
    → run (initial k) (print_lines ls) ≡ some (initial (apply_lines k ls))
unfolding run
run-lines k [] e = refl
run-lines k (l ∷ ls) e = run-line k l (print_lines ls) e.0 ∙ run-lines (apply_line k l) ls e.1

-- For a file of comments and settings, each value bare or in quotes, with blanks round the equals signs
-- and with the ends of lines of DOS, the parser gives the configuration that the lines stand for: each
-- setting in turn, with the texts of its values.
pub parse_file-print_lines :
    (k : SystemConfig) (ls : List Line)
    → All IsLine ls
    → parse_file k (print_lines ls) ≡ some (apply_lines k ls)
unfolding finish_in
parse_file-print_lines k ls e = parse_file-finish k (print_lines ls) _ (run-lines k ls e)

-- For a list of boot modules with a comma behind the last one, the parser adds none of them.
pub parse_file-cut :
    (k : SystemConfig) (before behind : Text) (vs : List Value)
    → Every is_blank before
    → Every is_blank behind
    → All IsValue vs
    → parse_file k (print_line (cut (codes "bootload") before behind vs)) ≡ some k
unfolding isalnum isalpha isdigit process_param kstricmp ktoupper push_modules char_to_unicode
    finish_in
parse_file-cut k before behind vs f g e =
    let l : Line = cut (codes "bootload") before behind vs in
    let whole : run (initial k) (print_line l) ≡ run (initial k) (print_line l ++ []) =
      rw append-nil refl in
    parse_file-finish k (print_line l) (initial k) (
      whole
      ∙ run-lines k (l ∷ [])
          (((refl, (refl, (refl, (refl, (refl, (refl, (refl, (refl, tt)))))))), f, g, e), tt))
