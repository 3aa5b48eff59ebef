-- ===== src/CLib/Symbol/Classes.antt =====
-- What the attribute table says of each byte, and how the case conversions follow it.
use shmdos.Prelude.{
  ℕ, ◌<◌, ◌≡◌, refl, Bool, true, false, not, ◌&&◌, ◌||◌, arith, ltb, leb, ◌==◌, if◌then◌else◌,
  ==_iff, every_below, every_from, below-every_from,
}
use shmdos.CLib.Symbol.{
  upper, lower, digit, hex, check_symbol, toupper, tolower, isprint, isxdigit, isspace,
}

-- Whether two tests agree, as a test.
same : Bool → Bool → Bool
same true b = b
same false b = not b

same-eq : (a b : Bool) → same a b ≡ true → a ≡ b
unfolding same
same-eq true b h = ground arith
same-eq false b h = ground arith

-- Two tests that agree at every byte by evaluation are equal at each.
by_table :
    (p q : ℕ → Bool)
    → every_below 256 (λ c. same (p c) (q c)) ≡ true
    → (c : ℕ) → c < 256
    → p c ≡ q c
by_table p q h c lt = same-eq (p c) (q c) (below-every_from 256 _ c h lt)

-- A byte between two others.
abbrev pub within : (first last c : ℕ) → Bool
within first last c = not (ltb c first || ltb last c)

digit_table : every_below 256 (λ c. same (check_symbol c digit) (within b'0' b'9' c)) ≡ true
unfolding every_from check_symbol same
digit_table = refl

hex_test : ℕ → Bool
hex_test c = within b'0' b'9' c || within b'A' b'F' c || within b'a' b'f' c

hex_table : every_below 256 (λ c. same (check_symbol c hex) (hex_test c)) ≡ true
unfolding every_from check_symbol same hex_test
hex_table = refl

upper_table :
    every_below 256 (λ c. same (check_symbol c upper && ltb c 0x80) (within b'A' b'Z' c)) ≡ true
unfolding every_from check_symbol same
upper_table = refl

lower_table :
    every_below 256 (λ c. same (check_symbol c lower && ltb c 0x80) (within b'a' b'z' c)) ≡ true
unfolding every_from check_symbol same
lower_table = refl

-- A byte has the digit attribute exactly when it is one of '0' to '9'.
pub check_symbol-digit : (c : ℕ) → c < 256 → check_symbol c digit ≡ within b'0' b'9' c
check_symbol-digit c h = by_table _ _ digit_table c h

-- A byte has the hex attribute exactly when it is one of '0' to '9', 'A' to 'F' or 'a' to 'f'.
pub check_symbol-hex :
    (c : ℕ)
    → c < 256
    → check_symbol c hex ≡ (within b'0' b'9' c || within b'A' b'F' c || within b'a' b'f' c)
unfolding hex_test
check_symbol-hex c h = by_table _ _ hex_table c h

-- Among the hex digits the upper attribute singles out 'A' to 'F'.
hex-upper_table :
    every_below 256 (λ c. same (check_symbol c hex && check_symbol c upper) (within b'A' b'F' c))
    ≡ true
unfolding every_from check_symbol same
hex-upper_table = refl

pub check_symbol-hex-upper :
    (c : ℕ) → c < 256 → (check_symbol c hex && check_symbol c upper) ≡ within b'A' b'F' c
check_symbol-hex-upper c h = by_table _ _ hex-upper_table c h

-- The predicates of the C library, at every byte: `isspace` holds for 0x09 to 0x0D and 0x20,
-- `isprint` from 0x20 on except at 0x7F, `isxdigit` for the hexadecimal digits.
flag : Bool → ℕ
flag b = if b then 1 else 0

predicate_table :
    every_below 256 (λ c.
      isspace c == flag (within 0x09 0x0D c || c == 0x20)
      && isprint c == flag (leb 0x20 c && not (c == 0x7F))
      && isxdigit c == flag (hex_test c))
    ≡ true
unfolding every_from isspace isprint isxdigit flag hex_test
predicate_table = refl

and-true : (a b : Bool) → (a && b) ≡ true → (a ≡ true) × (b ≡ true)
and-true a b h = ground arith

-- At every byte: `isspace` is 1 exactly at 0x09 to 0x0D and 0x20, `isprint` is 1 exactly from 0x20
-- on except at 0x7F, `isxdigit` is 1 exactly at '0' to '9', 'A' to 'F' and 'a' to 'f'; each is 0
-- elsewhere.
pub isspace-isprint-isxdigit :
    (c : ℕ)
    → c < 256
    → (isspace c ≡ (if within 0x09 0x0D c || c == 0x20 then 1 else 0))
      × (isprint c ≡ (if leb 0x20 c && not (c == 0x7F) then 1 else 0))
      × (isxdigit c
          ≡ (if within b'0' b'9' c || within b'A' b'F' c || within b'a' b'f' c then 1 else 0))
unfolding flag hex_test
isspace-isprint-isxdigit c h =
    let all = and-true _ _ (below-every_from 256 _ c predicate_table h) in
    let (a, b) = all in
    let (p, q) = and-true _ _ a in ((==_iff _ _).0 p, (==_iff _ _).0 q, (==_iff _ _).0 b)

-- `toupper` and `tolower` beside the attributes, as a test of one byte.
case_test : ℕ → Bool
case_test c =
    same (not (toupper c == c)) (check_symbol c lower)
    && same (not (tolower c == c)) (check_symbol c upper)
    && tolower (toupper c) == tolower c
    && toupper (tolower c) == toupper c
    && not (check_symbol (toupper c) lower)
    && not (check_symbol (tolower c) upper)

case_table : every_below 128 case_test ≡ true
unfolding every_from case_test same toupper tolower check_symbol
case_table = refl

-- On ASCII bytes `toupper` changes exactly the bytes with the lower attribute, `tolower` exactly
-- those with the upper one, neither leaves a byte of the other case, and each undoes the other up
-- to case.
pub toupper-tolower :
    (c : ℕ)
    → c < 128
    → (not (toupper c == c) ≡ check_symbol c lower)
      × (not (tolower c == c) ≡ check_symbol c upper)
      × (tolower (toupper c) ≡ tolower c)
      × (toupper (tolower c) ≡ toupper c)
      × (check_symbol (toupper c) lower ≡ false)
      × (check_symbol (tolower c) upper ≡ false)
unfolding case_test
toupper-tolower c h =
    let t = below-every_from 128 _ c case_table h in
    let (t, f) = and-true _ _ t in
    let (t, e) = and-true _ _ t in
    let (t, d) = and-true _ _ t in
    let (t, k) = and-true _ _ t in
    let (a, b) = and-true _ _ t in
    (same-eq _ _ a, same-eq _ _ b, (==_iff _ _).0 k, (==_iff _ _).0 d, not-true _ e, not-true _ f)
  where
    not-true : (b : Bool) → not b ≡ true → b ≡ false
    not-true b h = ground arith
