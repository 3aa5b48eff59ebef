-- ===== src/Config/Total.antt =====
-- The loop of `parseFile` ends: a character is left unread twice at most.
use shmdos.Prelude.{
  ℕ, suc, ◌≡◌, refl, ap, ◌∙◌, inl, inr, Bool, true, false, ◌==◌, Option, none, some, [], ◌∷◌,
  Bool-cases,
}
use shmdos.Config.Param.{Text, SystemConfig, isalnum}
use shmdos.Config.Parser.{
  line_start, skip_line, in_name, before_equals, before_value, in_quotes, in_value, after_value,
  line_done, Mode, Parser, step, step_in, feed, rounds, run, initial, parse_file, finish,
  is_newline, is_blank,
}

pub feed-used :
    (f : ℕ) (p : Parser) (c : ℕ) (q : Parser) → step p c ≡ (q, true) → feed (suc f) p c ≡ some q
unfolding feed
feed-used f p c q e = rw e refl

pub feed-retry :
    (f : ℕ) (p : Parser) (c : ℕ) (q : Parser)
    → step p c ≡ (q, false)
    → feed (suc f) p c ≡ feed f q c
unfolding feed
feed-retry f p c q e = rw e refl

-- So many rounds suffice for the character.
abbrev Fed : ℕ → Parser → ℕ → Type 0
Fed f p c = (q : Parser) × (feed f p c ≡ some q)

-- A step that reads the character, or that leaves it to a state for which so many rounds suffice.
data Settles (f c : ℕ) (r : Parser × Bool) : Type 0 where
  reads : r.1 ≡ true → Settles f c r
  leaves : r.1 ≡ false → Fed f r.0 c → Settles f c r

Fed-suc : (f : ℕ) (p : Parser) (c : ℕ) → Settles f c (step p c) → Fed (suc f) p c
unfolding feed
Fed-suc f p c (reads e) = ((step p c).0, rw e refl)
Fed-suc f p c (leaves e (r, fed)) = (r, rw e fed)

skip_line-Settles : (f : ℕ) (p : Parser) (c : ℕ) → Settles f c (step_in skip_line p c)
unfolding step_in
skip_line-Settles f p c = elim (Bool-cases (is_newline c)) [
  | inl e ↦ rw e (reads refl)
  | inr e ↦ rw e (reads refl)
]

skip_line-Fed : (f : ℕ) (p : Parser) (c : ℕ) → p.mode ≡ skip_line → Fed (suc f) p c
skip_line-Fed f p c e = Fed-suc f p c (rw e (skip_line-Settles f _ c))

line_done-Settles : (f : ℕ) (p : Parser) (c : ℕ) → Settles (suc f) c (step_in line_done p c)
unfolding step_in
line_done-Settles f p c = leaves refl (skip_line-Fed f _ c refl)

line_done-Fed : (f : ℕ) (p : Parser) (c : ℕ) → p.mode ≡ line_done → Fed (suc (suc f)) p c
line_done-Fed f p c e = Fed-suc (suc f) p c (rw e (line_done-Settles f _ c))

in_value-Settles : (f : ℕ) (p : Parser) (c : ℕ) → Settles (suc (suc f)) c (step_in in_value p c)
unfolding step_in
in_value-Settles f p c = elim (Bool-cases (is_newline c)) [
  | inl e ↦ rw e (leaves refl (line_done-Fed (f) _ c refl))
  | inr e ↦ rw e (elim (Bool-cases (c == b',')) [
    | inl e ↦ rw e (reads refl)
    | inr e ↦
        rw e
          (elim (Bool-cases (is_blank c)) [ inl e ↦ rw e (reads refl) | inr e ↦ rw e (reads refl) ])
  ])
]

in_value-Fed : (f : ℕ) (p : Parser) (c : ℕ) → p.mode ≡ in_value → Fed (suc (suc (suc f))) p c
in_value-Fed f p c e = Fed-suc (suc (suc f)) p c (rw e (in_value-Settles f _ c))

step_in-Settles :
    (f : ℕ) (m : Mode) (p : Parser) (c : ℕ) → Settles (suc (suc (suc f))) c (step_in m p c)
unfolding step_in
step_in-Settles f line_start p c = elim (Bool-cases (isalnum c)) [
  | inl e ↦ rw e (reads refl)
  | inr e ↦
      rw e (elim (Bool-cases (c == b';')) [ inl e ↦ rw e (reads refl) | inr e ↦ rw e (reads refl) ])
]
step_in-Settles f skip_line p c = skip_line-Settles (suc (suc (suc f))) p c
step_in-Settles f in_name p c = elim (Bool-cases (isalnum c)) [
  | inl e ↦ rw e (reads refl)
  | inr e ↦ rw e (elim (Bool-cases (is_blank c)) [
    | inl e ↦ rw e (reads refl)
    | inr e ↦ rw e (elim (Bool-cases (c == b'=')) [
      | inl e ↦ rw e (reads refl)
      | inr e ↦ rw e (leaves refl (skip_line-Fed _ _ c refl))
    ])
  ])
]
step_in-Settles f before_equals p c = elim (Bool-cases (c == b'=')) [
  | inl e ↦ rw e (reads refl)
  | inr e ↦ rw e (elim (Bool-cases (is_blank c)) [
    | inl e ↦ rw e (reads refl)
    | inr e ↦ rw e (leaves refl (skip_line-Fed _ _ c refl))
  ])
]
step_in-Settles f before_value p c = elim (Bool-cases (isalnum c)) [
  | inl e ↦ rw e (leaves refl (in_value-Fed f _ c refl))
  | inr e ↦ rw e (elim (Bool-cases (c == b'"')) [
    | inl e ↦ rw e (reads refl)
    | inr e ↦ rw e (elim (Bool-cases (is_blank c)) [
      | inl e ↦ rw e (reads refl)
      | inr e ↦ rw e (elim (Bool-cases (is_newline c)) [
        | inl e ↦ rw e (leaves refl (line_done-Fed (suc f) _ c refl))
        | inr e ↦ rw e (leaves refl (skip_line-Fed _ _ c refl))
      ])
    ])
  ])
]
step_in-Settles f in_quotes p c = elim (Bool-cases (is_newline c)) [
  | inl e ↦ rw e (leaves refl (skip_line-Fed _ _ c refl))
  | inr e ↦
      rw e (elim (Bool-cases (c == b'"')) [ inl e ↦ rw e (reads refl) | inr e ↦ rw e (reads refl) ])
]
step_in-Settles f in_value p c = in_value-Settles (suc f) p c
step_in-Settles f after_value p c = elim (Bool-cases (is_newline c)) [
  | inl e ↦ rw e (leaves refl (line_done-Fed (suc f) _ c refl))
  | inr e ↦ rw e (elim (Bool-cases (is_blank c)) [
    | inl e ↦ rw e (reads refl)
    | inr e ↦ rw e (elim (Bool-cases (c == b',')) [
      | inl e ↦ rw e (reads refl)
      | inr e ↦ rw e (leaves refl (skip_line-Fed _ _ c refl))
    ])
  ])
]
step_in-Settles f line_done p c = line_done-Settles (suc (suc f)) p c

pub run-cons :
    (p : Parser) (c : ℕ) (s : Text) (q : Parser)
    → feed rounds p c ≡ some q
    → run p (c ∷ s) ≡ run q s
unfolding run
run-cons p c s q e = ap go_on e
  where
    go_on : Option Parser → Option Parser
    go_on o = elim o [ none ↦ none | some r ↦ run r s ]

run-total : (p : Parser) (s : Text) → (q : Parser) × (run p s ≡ some q)
unfolding run
run-total p [] = (p, refl)
run-total p (c ∷ s) =
    let (q, fed) = Fed-suc 3 p c (step_in-Settles 0 p.mode p c) in
    let (r, done) = run-total q s in (r, run-cons p c s q fed ∙ done)

pub parse_file-finish :
    (config : SystemConfig) (file : Text) (p : Parser)
    → run (initial config) file ≡ some p
    → parse_file config file ≡ some (finish p)
unfolding parse_file
parse_file-finish config file p e = ap end_of e
  where
    end_of : Option Parser → Option SystemConfig
    end_of o = elim o [ none ↦ none | some r ↦ some (finish r) ]

-- Whatever the file holds, no character takes more than four rounds of the loop: the parser comes to
-- the end of the file, with a configuration.
pub parse_file-total :
    (config : SystemConfig) (file : Text) → (c : SystemConfig) × (parse_file config file ≡ some c)
parse_file-total config file =
    let (p, done) = run-total (initial config) file in
    (finish p, parse_file-finish config file p done)
