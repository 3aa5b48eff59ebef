-- ===== src/Vmm/Alloc/Search.antt =====
-- What the loops of `allocPages` find: the scan of a list and the search for a larger class.
use shmdos.Prelude.{
  ℕ, zero, suc, ◌+◌, ◌-◌, ◌/◌, ◌^◌, ◌≤◌, ◌<◌, ◌≡◌, ◌≢◌, sym, ◌⊎◌, inl, inr, true, none, some, List,
  [], ◌∷◌, arith, ltb, leb, ◌==◌, Bool-cases, ==_iff, length, last_one_bit,
}
use shmdos.Vmm.Pages.{Item, Pages, Scan, exact, best, scan, larger_class, invalid_page_offset}
use shmdos.Vmm.Chain.{has, Linked, Chain}
use shmdos.Vmm.Lists.{Pool}

-- The items that a list's links lead to, whatever they point back to.
Linked-Pool : (f : ℕ → Item) (a p : ℕ) (xs : List ℕ) → Linked f a p xs → Pool f p xs
Linked-Pool f a p [] l = l
Linked-Pool f a p (x ∷ xs) (e, ne, back, rest) = (e, ne, Linked-Pool f x (f x).next xs rest)

pub Chain-Pool : (f : ℕ → Item) (p : ℕ) (xs : List ℕ) → Chain f p xs → Pool f p xs
Chain-Pool f p [] l = l
Chain-Pool f p (x ∷ xs) (e, ne, rest) = (e, ne, Linked-Pool f x (f x).next xs rest)

-- What the scan of a whole list says: an item of n pages, or one of more with the excess, or none.
pub data Found (f : ℕ → Item) (n : ℕ) (list : List ℕ) : Scan → Type 0 where
  exact_fit : (p : ℕ) → has p list ≡ true → (f p).num_pages ≡ n → Found f n list (exact p)
  best_fit :
      (p d : ℕ)
      → has p list ≡ true
      → p ≢ 0
      → (f p).num_pages ≡ n + d
      → 0 < d
      → Found f n list (best 0 p d)
  no_fit :
      (d : ℕ) → ((p : ℕ) → has p list ≡ true → (f p).num_pages < n) → Found f n list (best 0 0 d)

module _ (f : ℕ → Item) (n : ℕ) where
  -- With a candidate in hand the scan ends with a candidate or an exact fit.
  scan_better :
      (all rest : List ℕ) (cur item delta : ℕ)
      → Pool f cur rest
      → ((x : ℕ) → has x rest ≡ true → has x all ≡ true)
      → has item all ≡ true
      → item ≢ 0
      → (f item).num_pages ≡ n + delta
      → 0 < delta
      → Found f n all (scan (length rest) f n cur item delta)
  unfolding scan
  scan_better all [] cur item delta e sub h ne size pos = rw e (best_fit item delta h ne size pos)
  scan_better all (x ∷ rest) cur item delta (e, ne, links) sub h ne' size pos =
      rw e (elim (Bool-cases (leb n (f x).num_pages)) [
        | inr small ↦
            rw small (scan_better all rest (f x).next item delta links sub' h ne' size pos)
        | inl fits ↦ elim (Bool-cases ((f x).num_pages - n == 0)) [
          | inl same ↦ rw (fits, same) (exact_fit x here (ground arith))
          | inr more ↦ elim (Bool-cases (ltb ((f x).num_pages - n) delta)) [
            | inl less ↦
                rw (fits, more, less)
                  (scan_better all rest (f x).next x ((f x).num_pages - n) links sub' here ne
                    (ground arith) (ground arith))
            | inr worse ↦
                rw (fits, more, worse)
                  (scan_better all rest (f x).next item delta links sub' h ne' size pos)
          ]
        ]
      ])
    where
      sub' : (y : ℕ) → has y rest ≡ true → has y all ≡ true
      sub' y i = sub y (ground arith)

      here : has x all ≡ true
      here = sub x (ground arith)

  -- With none yet, it finds one unless every item is too small.
  scan_first :
      (all rest : List ℕ) (cur : ℕ)
      → Pool f cur rest
      → ((x : ℕ) → has x rest ≡ true → has x all ≡ true)
      → ((x : ℕ)
          → has x all ≡ true
          → ((f x).num_pages < n) ⊎ ((has x rest ≡ true) × ((f x).num_pages < 2 ^ 40)))
      → Found f n all (scan (length rest) f n cur 0 invalid_page_offset)
  unfolding scan
  scan_first all [] cur e sub cover = rw e (
      no_fit invalid_page_offset
        (λ p h. elim (cover p h) [ inl small ↦ small | inr (i, lt) ↦ absurd (ground arith) ]))
  scan_first all (x ∷ rest) cur (e, ne, links) sub cover =
      rw e (elim (Bool-cases (leb n (f x).num_pages)) [
        | inr small ↦
            rw small (scan_first all rest (f x).next links sub' (λ y h. cover' (ground arith) y h))
        | inl fits ↦ elim (Bool-cases ((f x).num_pages - n == 0)) [
          | inl same ↦ rw (fits, same) (exact_fit x here (ground arith))
          | inr more ↦
              let less : ltb ((f x).num_pages - n) invalid_page_offset ≡ true = bounded fits in
              rw (fits, more, less)
                (scan_better all rest (f x).next x ((f x).num_pages - n) links sub' here ne
                  (ground arith) (ground arith))
        ]
      ])
    where
      sub' : (y : ℕ) → has y rest ≡ true → has y all ≡ true
      sub' y i = sub y (ground arith)

      here : has x all ≡ true
      here = sub x (ground arith)

      bounded : leb n (f x).num_pages ≡ true → ltb ((f x).num_pages - n) invalid_page_offset ≡ true
      bounded fits = elim (cover x here) [
        | inl small ↦ absurd (ground arith)
        | inr (i, lt) ↦ ground arith
      ]

      cover' :
          (f x).num_pages < n
          → (y : ℕ) → has y all ≡ true
          → ((f y).num_pages < n) ⊎ ((has y rest ≡ true) × ((f y).num_pages < 2 ^ 40))
      cover' small y h = elim (cover y h) [
        | inl s ↦ inl s
        | inr (i, lt) ↦ elim (Bool-cases (y == x)) [
          | inl self ↦ inl (rw ((==_iff y x).0 self) small)
          | inr other ↦ inr (ground arith, lt)
        ]
      ]

  pub scan-Found :
      (p : ℕ) (list : List ℕ)
      → Chain f p list
      → ((x : ℕ) → has x list ≡ true → (f x).num_pages < 2 ^ 40)
      → Found f n list (scan (length list) f n p 0 invalid_page_offset)
  scan-Found p list chain small =
      scan_first list list p (Chain-Pool f p list chain) (λ x h. h) (λ x h. inr (h, small x h))

-- The class that the second loop finds has a region, and is one of those it looked at.
pub larger_class-some :
    (k : ℕ) (v : Pages) (c i : ℕ)
    → larger_class k v c ≡ some i
    → (0 < v.counters i) × (c ≤ i) × (i < c + k)
unfolding larger_class
larger_class-some zero v c i e = absurd (cc e)
larger_class-some (suc k) v c i e = elim (Bool-cases (ltb 0 (v.counters c))) [
  | inl here ↦ let same : c ≡ i = ground (arith, e, here) in rw (sym same) (ground (arith, here))
  | inr later ↦
      let facts = larger_class-some k v (c + 1) i (rw later at e) in
      (facts.0, omega (arith, facts.1), omega (arith, facts.2))
]

-- Where it finds none, all of them are empty.
pub larger_class-none :
    (k : ℕ) (v : Pages) (c i : ℕ) → larger_class k v c ≡ none → c ≤ i → i < c + k → v.counters i ≡ 0
unfolding larger_class
larger_class-none zero v c i e lo hi = absurd (omega arith)
larger_class-none (suc k) v c i e lo hi = elim (Bool-cases (ltb 0 (v.counters c))) [
  | inl here ↦ absurd (ground (arith, e, here))
  | inr later ↦ elim (Bool-cases (i == c)) [
    | inl same ↦ rw ((==_iff i c).0 same) (ground arith)
    | inr other ↦ larger_class-none k v (c + 1) i (rw later at e) (ground arith) (omega arith)
  ]
]

-- A larger number has no smaller class.
pub last_one_bit_monotone : (w a b : ℕ) → a ≤ b → last_one_bit w a ≤ last_one_bit w b
unfolding last_one_bit
last_one_bit_monotone zero a b le = omega arith
last_one_bit_monotone (suc w) a b le =
    ground (arith, last_one_bit_monotone w (a / 2) (b / 2) (omega arith))
