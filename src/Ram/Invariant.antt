-- ===== src/Ram/Invariant.antt =====
-- In every state the free pages are a list without repetition, apart from the pages of users and of
-- threads on their way to give one back.
use shmdos.Prelude.{
  ℕ, ◌+◌, ◌%◌, ◌≤◌, ◌≡◌, ◌≢◌, refl, sym, ap, subst, ◌∙◌, inl, inr, ◌==◌, Bool, true, false, ◌||◌,
  Bool-cases, ==_iff, Option, none, some, List, [], ◌∷◌, update, arith,
}
use shmdos.Ram.{Ram, word_mod, compare_exchange, set_link}
use shmdos.Ram.Steps.{
  Thread, idle, alloc_head, alloc_count, alloc_link, free_page, free_head, free_count, free_link,
  State,
}

-- The list from a head over the links to the stop.
abbrev pub Chain : (ℕ → ℕ) → (stop head : ℕ) → List ℕ → Type 0
Chain link stop head [] = head ≡ stop
Chain link stop head (p ∷ ps) = (head ≡ p) × (p ≢ stop) × Chain link stop (link p) ps

abbrev pub has : ℕ → List ℕ → Bool
has p [] = false
has p (q ∷ qs) = (p == q) || has p qs

abbrev pub Distinct : List ℕ → Type 0
Distinct [] = Unit {0}
Distinct (p ∷ ps) = (has p ps ≡ false) × Distinct ps

-- The page that a thread gives back.
abbrev pub page_of : Thread → Option ℕ
page_of (free_page p) = some p
page_of (free_head p h) = some p
page_of (free_count p h c) = some p
page_of (free_link p h c) = some p
page_of _ = none

abbrev pub Given : (stop : ℕ) → (ℕ → Bool) → List ℕ → ℕ → Type 0
Given stop user fs p = (user p ≡ false) × (has p fs ≡ false) × (p ≢ stop)

-- What holds of a thread on its way. A link that it has seen is still that of the head, if the header is
-- the one that it has seen.
abbrev pub Fits : (stop : ℕ) → Ram → (ℕ → Bool) → List ℕ → Thread → Type 0
Fits stop r user fs idle = Unit {0}
Fits stop r user fs (alloc_head h) = Unit {0}
Fits stop r user fs (alloc_count h c) = c ≤ r.count
Fits stop r user fs (alloc_link h c n) =
    (c ≤ r.count) × (h ≢ stop) × ((c ≡ r.count) → (r.head ≡ h) → r.link h ≡ n)
Fits stop r user fs (free_page p) = Given stop user fs p
Fits stop r user fs (free_head p h) = Given stop user fs p
Fits stop r user fs (free_count p h c) = Given stop user fs p
Fits stop r user fs (free_link p h c) = Given stop user fs p × (r.link p ≡ h)

pub record IsGood (stop : ℕ) (s : State) (fs : List ℕ) : Type 0 where
  pub chain : Chain s.ram.link stop s.ram.head fs
  pub distinct : Distinct fs
  pub users : (p : ℕ) → has p fs ≡ true → s.user p ≡ false
  pub stop_user : s.user stop ≡ false
  pub fits : (t : ℕ) → Fits stop s.ram s.user fs (s.thread t)
  pub alone : (t u p : ℕ) → page_of (s.thread t) ≡ some p → page_of (s.thread u) ≡ some p → t ≡ u

pub compare_exchange-true :
    (r : Ram) (h c n : ℕ)
    → (compare_exchange r h c n).0 ≡ true
    → (r.head ≡ h)
      × (r.count ≡ c)
      × ((compare_exchange r h c n).1 ≡ record r { head = n; count = (c + 1) % word_mod })
unfolding compare_exchange
compare_exchange-true r h c n e = elim (Bool-cases (r.head == h)) [
  | inr other ↦ absurd (clash (rw (other) at e))
  | inl same_head ↦ elim (Bool-cases (r.count == c)) [
    | inr other ↦ absurd (clash (rw (same_head, other) at e))
    | inl same_count ↦ (
      (==_iff r.head h).0 same_head,
      (==_iff r.count c).0 same_count,
      rw (same_head, same_count) refl,
    )
  ]
]
  where
    clash : false ≡ true → ⊥
    clash z = cc

pub Chain-update :
    (link : ℕ → ℕ) (stop h p v : ℕ) (fs : List ℕ)
    → has p fs ≡ false
    → Chain link stop h fs
    → Chain (update link p v) stop h fs
Chain-update link stop h p v [] out c = c
Chain-update link stop h p v (q ∷ qs) out c =
    let other : (q == p) ≡ false = ground (arith, out) in
    (c.0, c.1, rw other (Chain-update link stop (link q) p v qs (ground (arith, out)) c.2))

pub Chain-head :
    (link : ℕ → ℕ) (stop h : ℕ) (fs : List ℕ)
    → Chain link stop h fs
    → h ≢ stop
    → (rest : List ℕ) × (fs ≡ h ∷ rest) × Chain link stop (link h) rest
Chain-head link stop h [] c ne = absurd (ne c)
Chain-head link stop h (q ∷ qs) c ne =
    (qs, ap (λ x. x ∷ qs) (sym c.0), subst (λ x. Chain link stop (link x) qs) (sym c.0) c.2)

pub has-head : (h : ℕ) (rest : List ℕ) → has h (h ∷ rest) ≡ true
has-head h rest = let e : (h == h) ≡ true = ground arith in rw e refl

-- A write to a page that is neither free nor the thread's own.
pub Fits-link :
    (stop p v : ℕ) (r : Ram) (user : ℕ → Bool) (fs : List ℕ) (th : Thread)
    → Chain r.link stop r.head fs
    → has p fs ≡ false
    → page_of th ≢ some p
    → Fits stop r user fs th
    → Fits stop (set_link r p v) user fs th
Fits-link stop p v r user fs idle c out own f = f
Fits-link stop p v r user fs (alloc_head h) c out own f = f
Fits-link stop p v r user fs (alloc_count h n) c out own f = f
Fits-link stop p v r user fs (alloc_link h n next) c out own f = (
  f.0,
  f.1,
  λ same_count same_head.
      let other : (h == p) ≡ false = apart same_head in rw other (f.2 same_count same_head),
)
  where
    apart : r.head ≡ h → (h == p) ≡ false
    apart same_head =
        let (rest, e, below) = Chain-head r.link stop r.head fs c (λ z. f.1 (sym same_head ∙ z)) in
        let found = ap (has r.head) e ∙ has-head r.head rest in
        elim (Bool-cases (h == p)) [
          | inr other ↦ other
          | inl same ↦
              absurd
                (clash (sym found ∙ ap (λ x. has x fs) (same_head ∙ (==_iff h p).0 same) ∙ out))
        ]
      where
        clash : true ≡ false → ⊥
        clash z = cc
Fits-link stop p v r user fs (free_page q) c out own f = f
Fits-link stop p v r user fs (free_head q h) c out own f = f
Fits-link stop p v r user fs (free_count q h n) c out own f = f
Fits-link stop p v r user fs (free_link q h n) c out own f =
    let other : (q == p) ≡ false = elim (Bool-cases (q == p)) [
      | inr other ↦ other
      | inl same ↦ absurd (own (ap some ((==_iff q p).0 same)))
    ] in
    (f.0, rw other f.1)
