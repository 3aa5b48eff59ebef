-- ===== src/Config/Fields.antt =====
-- What a run of like characters does to the parser of uefi/config.cpp.
use shmdos.Prelude.{ℕ, ◌≡◌, refl, ap, ◌∙◌, true, false, not, List, [], ◌∷◌, ◌++◌, arith}
use mathlib.Core.List.{append-nil, append_assoc}
use shmdos.Config.Param.{Text, SystemConfig, isalnum, isalpha, isdigit}
use shmdos.Config.Parser.{
  Mode, skip_line, in_name, before_equals, before_value, in_quotes, in_value, Parser, step, step_in,
  run, char_to_unicode, is_newline, is_blank,
}
use shmdos.Config.Total.{feed-used, feed-retry, run-cons}
use shmdos.Config.Lines.{unicode, is_plain, is_quotable, Every}

abbrev pub at : Mode → Text → List Text → Text → SystemConfig → Parser
at m n vs b k = record { mode = m; name = n; values = vs; back = b; config = k }

pub run-read :
    (p : Parser) (c : ℕ) (s : Text) (q : Parser) → step p c ≡ (q, true) → run p (c ∷ s) ≡ run q s
run-read p c s q e = run-cons p c s q (feed-used 3 p c q e)

pub run-pass :
    (p : Parser) (c : ℕ) (s : Text) (q r : Parser)
    → step p c ≡ (q, false)
    → step q c ≡ (r, true)
    → run p (c ∷ s) ≡ run r s
run-pass p c s q r e d = run-cons p c s r (feed-retry 3 p c q e ∙ feed-used 2 q c r d)

pub run-pass_twice :
    (p : Parser) (c : ℕ) (s : Text) (q r t : Parser)
    → step p c ≡ (q, false)
    → step q c ≡ (r, false)
    → step r c ≡ (t, true)
    → run p (c ∷ s) ≡ run t s
run-pass_twice p c s q r t e d f =
    run-cons p c s t (feed-retry 3 p c q e ∙ feed-retry 2 q c r d ∙ feed-used 1 r c t f)

pub is_plain-isalnum : (c : ℕ) → isalnum c ≡ true → is_plain c ≡ true
unfolding isalnum isalpha isdigit is_plain
is_plain-isalnum c e = ground arith

module _ (n : Text) (vs : List Text) (k : SystemConfig) where
  pub step-plain :
      (b : Text) (c : ℕ)
      → is_plain c ≡ true
      → step (at in_value n vs b k) c ≡ (at in_value n vs (b ++ char_to_unicode c ∷ []) k, true)
  unfolding step_in is_plain
  step-plain b c e = ground arith

  pub run-plain :
      (b t s : Text)
      → Every is_plain t
      → run (at in_value n vs b k) (t ++ s) ≡ run (at in_value n vs (b ++ unicode t) k) s
  run-plain b [] s e = rw append-nil refl
  run-plain b (c ∷ t) s e =
      run-read _ c (t ++ s) _ (step-plain b c e.0)
      ∙ run-plain (b ++ char_to_unicode c ∷ []) t s e.1
      ∙ ap (λ u. run (at in_value n vs u k) s) (append_assoc b (char_to_unicode c ∷ []) (unicode t))

  step-quotable :
      (b : Text) (c : ℕ)
      → is_quotable c ≡ true
      → step (at in_quotes n vs b k) c ≡ (at in_quotes n vs (b ++ char_to_unicode c ∷ []) k, true)
  unfolding step_in is_quotable
  step-quotable b c e = ground arith

  pub run-quotable :
      (b t s : Text)
      → Every is_quotable t
      → run (at in_quotes n vs b k) (t ++ s) ≡ run (at in_quotes n vs (b ++ unicode t) k) s
  run-quotable b [] s e = rw append-nil refl
  run-quotable b (c ∷ t) s e =
      run-read _ c (t ++ s) _ (step-quotable b c e.0)
      ∙ run-quotable (b ++ char_to_unicode c ∷ []) t s e.1
      ∙ ap (λ u. run (at in_quotes n vs u k) s)
          (append_assoc b (char_to_unicode c ∷ []) (unicode t))

  step-behind :
      (b : Text) (c : ℕ)
      → is_blank c ≡ true
      → step (at before_value n vs b k) c ≡ (at before_value n vs b k, true)
  unfolding step_in isalnum isalpha isdigit
  step-behind b c e = ground arith

  pub run-behind :
      (b t s : Text)
      → Every is_blank t
      → run (at before_value n vs b k) (t ++ s) ≡ run (at before_value n vs b k) s
  run-behind b [] s e = refl
  run-behind b (c ∷ t) s e = run-read _ c (t ++ s) _ (step-behind b c e.0) ∙ run-behind b t s e.1

module _ (vs : List Text) (b : Text) (k : SystemConfig) where
  step-name :
      (n : Text) (c : ℕ)
      → isalnum c ≡ true
      → step (at in_name n vs b k) c ≡ (at in_name (n ++ char_to_unicode c ∷ []) vs b k, true)
  unfolding step_in
  step-name n c e = rw e refl

  pub run-name :
      (n t s : Text)
      → Every isalnum t
      → run (at in_name n vs b k) (t ++ s) ≡ run (at in_name (n ++ unicode t) vs b k) s
  run-name n [] s e = rw append-nil refl
  run-name n (c ∷ t) s e =
      run-read _ c (t ++ s) _ (step-name n c e.0)
      ∙ run-name (n ++ char_to_unicode c ∷ []) t s e.1
      ∙ ap (λ u. run (at in_name u vs b k) s) (append_assoc n (char_to_unicode c ∷ []) (unicode t))

  -- From the end of a name to the `=`, over blanks.
  run-equals :
      (n t s : Text)
      → Every is_blank t
      → run (at before_equals n vs b k) (t ++ b'=' ∷ s) ≡ run (at before_value n vs b k) s
  unfolding step_in
  run-equals n [] s e = run-read _ b'=' s _ refl
  run-equals n (c ∷ t) s e =
      run-read _ c (t ++ b'=' ∷ s) _ (ground (arith, e.0)) ∙ run-equals n t s e.1

  pub run-name_equals :
      (n t s : Text)
      → Every is_blank t
      → run (at in_name n vs b k) (t ++ b'=' ∷ s) ≡ run (at before_value n vs b k) s
  unfolding step_in isalnum isalpha isdigit
  run-name_equals n [] s e = run-read _ b'=' s _ refl
  run-name_equals n (c ∷ t) s e =
      run-read _ c (t ++ b'=' ∷ s) _ (step-blank c e.0) ∙ run-equals n t s e.1
    where
      step-blank :
          (c : ℕ)
          → is_blank c ≡ true
          → step (at in_name n vs b k) c ≡ (at before_equals n vs b k, true)
      step-blank c e = ground arith

  step-comment :
      (n : Text) (c : ℕ)
      → not (is_newline c) ≡ true
      → step (at skip_line n vs b k) c ≡ (at skip_line n vs b k, true)
  unfolding step_in
  step-comment n c e = ground arith

  pub run-comment :
      (n t s : Text)
      → Every (λ c. not (is_newline c)) t
      → run (at skip_line n vs b k) (t ++ s) ≡ run (at skip_line n vs b k) s
  run-comment n [] s e = refl
  run-comment n (c ∷ t) s e = run-read _ c (t ++ s) _ (step-comment n c e.0) ∙ run-comment n t s e.1
