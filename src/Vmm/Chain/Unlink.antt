-- ===== src/Vmm/Chain/Unlink.antt =====
-- `deleteFreeRegion` takes exactly its item out of a list.
use shmdos.Prelude.{
  ℕ, suc, ◌≡◌, ◌≢◌, refl, ◌⊎◌, inl, inr, true, false, not, ◌&&◌, List, [], ◌∷◌, arith, ◌==◌,
  Bool-cases, ==_iff, if◌then◌else◌, length,
}
use shmdos.Vmm.Pages.{Item, set_next, set_prev}
use shmdos.Vmm.Chain.Defs.{has, Distinct, erase, Linked, Chain, SameLinks, Linked-frame}

-- The writes of `deleteFreeRegion` to the neighbours of an item that is not the head.
unfoldable pub patched : (ℕ → Item) → ℕ → ℕ → Item
patched items p =
    let it = items p in
    let f = set_next items it.prev it.next in if it.next == 0 then f else set_prev f it.next it.prev

module _ (f : ℕ → Item) (p : ℕ) where
  pub patched-next :
      (z : ℕ) → (patched f p z).next ≡ (if z == (f p).prev then (f p).next else (f z).next)
  unfolding patched
  patched-next z = ground arith

  pub patched-prev :
      (z : ℕ)
      → (patched f p z).prev ≡ (if z == (f p).next && not (z == 0) then (f p).prev else (f z).prev)
  unfolding patched
  patched-prev z = ground arith

  pub patched-data :
      (z : ℕ)
      → ((patched f p z).num_pages ≡ (f z).num_pages)
        × ((patched f p z).page_base ≡ (f z).page_base)
  unfolding patched
  patched-data z = ground arith

  -- The neighbours of an item are in the list too, but for the ends.
  next-has :
      (a q : ℕ) (xs : List ℕ)
      → Linked f a q xs
      → has p xs ≡ true
      → ((f p).next ≡ 0) ⊎ (has (f p).next xs ≡ true)
  next-has a q [] l h = absurd (ground arith)
  next-has a q (x ∷ []) (e, ne, back, rest) h = inl (ground arith)
  next-has a q (x ∷ y ∷ zs) (e, ne, back, rest) h = elim (Bool-cases (p == x)) [
    | inl here ↦ inr (ground (arith, rest.0))
    | inr there ↦ elim (next-has x (f x).next (y ∷ zs) rest (ground arith)) [
      | inl none ↦ inl none
      | inr some ↦ inr (ground arith)
    ]
  ]

  prev-has :
      (a q : ℕ) (xs : List ℕ)
      → Linked f a q xs
      → has p xs ≡ true
      → ((f p).prev ≡ a) ⊎ (has (f p).prev xs ≡ true)
  prev-has a q [] l h = absurd (ground arith)
  prev-has a q (x ∷ xs) (e, ne, back, rest) h = elim (Bool-cases (p == x)) [
    | inl here ↦ inl (ground arith)
    | inr there ↦ elim (prev-has x (f x).next xs rest (ground arith)) [
      | inl at ↦ inr (ground arith)
      | inr some ↦ inr (ground arith)
    ]
  ]

  -- The item leaves the list behind `a`.
  Linked-patched-head :
      (a : ℕ) (ys : List ℕ)
      → (f p).prev ≡ a
      → a ≢ p
      → has a ys ≡ false
      → Distinct ys
      → Linked f p (f p).next ys
      → Linked (patched f p) a (patched f p a).next ys
  Linked-patched-head a [] back ne out d l = ground (arith, patched-next a)
  Linked-patched-head a (y ∷ zs) back ne out d (e, nz, b, rest) = (
    ground (arith, patched-next a),
    nz,
    ground (arith, patched-prev y),
    rw same_next (Linked-frame f (patched f p) y (f y).next zs same rest),
  )
    where
      same_next : (patched f p y).next ≡ (f y).next
      same_next = ground (arith, patched-next y)

      same : SameLinks f (patched f p) zs
      same z i = (ground (arith, patched-prev z), ground (arith, patched-next z))

  Linked-patched :
      (a q : ℕ) (xs : List ℕ)
      → Linked f a q xs
      → q ≡ (f a).next
      → has p xs ≡ true
      → has a xs ≡ false
      → Distinct xs
      → Linked (patched f p) a (patched f p a).next (erase p xs)
  Linked-patched a q [] l e h out d = absurd (ground arith)
  Linked-patched a q (x ∷ ys) (e, ne, back, rest) eq h out (dx, d) = elim (Bool-cases (x == p)) [
    | inl here ↦
        let x-eq : x ≡ p = (==_iff x p).0 here in
        rw here (
          Linked-patched-head a ys (ground arith) (ground arith) (ground arith) d (rw x-eq at rest))
    | inr there ↦
        let in_ys : has p ys ≡ true = ground arith in
        let next = next-has x (f x).next ys rest in_ys in
        let prev = prev-has x (f x).next ys rest in_ys in
        rw there (
          ground (arith, patched-next a),
          ne,
          ground (arith, patched-prev x),
          Linked-patched x (f x).next ys rest refl in_ys dx d,
        )
  ]

-- What is left of a list without one of its items.
pub has-erase_self : (p : ℕ) (xs : List ℕ) → Distinct xs → has p (erase p xs) ≡ false
has-erase_self p [] d = refl
has-erase_self p (x ∷ xs) d = ground (arith, has-erase_self p xs d.1)

pub has-erase : (p y : ℕ) (xs : List ℕ) → has y (erase p xs) ≡ true → has y xs ≡ true
has-erase p y [] h = h
has-erase p y (x ∷ xs) h = ground (arith, has-erase p y xs)

pub has-erase_ne : (p y : ℕ) (xs : List ℕ) → y ≢ p → has y (erase p xs) ≡ has y xs
has-erase_ne p y [] ne = refl
has-erase_ne p y (x ∷ xs) ne = ground (arith, has-erase_ne p y xs ne)

not-has-erase : (p y : ℕ) (xs : List ℕ) → has y xs ≡ false → has y (erase p xs) ≡ false
not-has-erase p y [] h = h
not-has-erase p y (x ∷ xs) h = ground (arith, not-has-erase p y xs)

pub Distinct-erase : (p : ℕ) (xs : List ℕ) → Distinct xs → Distinct (erase p xs)
Distinct-erase p [] d = d
Distinct-erase p (x ∷ xs) d = elim (Bool-cases (x == p)) [
  | inl here ↦ rw here d.1
  | inr there ↦ rw there (not-has-erase p x xs d.0, Distinct-erase p xs d.1)
]

pub length-erase : (p : ℕ) (xs : List ℕ) → has p xs ≡ true → suc (length (erase p xs)) ≡ length xs
length-erase p [] h = absurd (ground arith)
length-erase p (x ∷ xs) h = ground (arith, length-erase p xs)

module _ (f : ℕ → Item) where
  Chain-Linked : (a p : ℕ) (xs : List ℕ) → Linked f a p xs → Chain f p xs
  Chain-Linked a p [] l = l
  Chain-Linked a p (x ∷ xs) (e, ne, back, rest) = (e, ne, rest)

  -- The head leaves the list by the table alone.
  pub Chain-head :
      (p : ℕ) (xs : List ℕ) → Chain f p xs → has p xs ≡ true → Chain f (f p).next (erase p xs)
  Chain-head p [] l h = absurd (ground arith)
  Chain-head p (x ∷ xs) (e, ne, rest) h =
      let here : (x == p) ≡ true = ground arith in rw (here, e) (Chain-Linked x (f x).next xs rest)

  -- Another item leaves it by its neighbours.
  pub Chain-patched :
      (p q : ℕ) (xs : List ℕ)
      → Chain f q xs
      → has p xs ≡ true
      → p ≢ q
      → Distinct xs
      → Chain (patched f p) q (erase p xs)
  Chain-patched p q [] l h ne d = absurd (ground arith)
  Chain-patched p q (x ∷ xs) (e, nz, rest) h ne d =
      let there : (x == p) ≡ false = ground arith in
      rw there (e, nz, Linked-patched f p x (f x).next xs rest refl (ground arith) d.0 d.1)

  -- The links of any list that shares no item with it stay.
  pub patched-SameLinks :
      (p q : ℕ) (xs ys : List ℕ)
      → Chain f q xs
      → has p xs ≡ true
      → p ≢ q
      → ((y : ℕ) → has y ys ≡ true → has y xs ≡ false)
      → SameLinks f (patched f p) ys
  patched-SameLinks p q [] ys l h ne apart y i = absurd (ground arith)
  patched-SameLinks p q (x ∷ xs) ys (e, nz, rest) h ne apart y i =
      let in_xs : has p xs ≡ true = ground arith in
      let next = next-has f p x (f x).next xs rest in_xs in
      let prev = prev-has f p x (f x).next xs rest in_xs in
      let out : has y (x ∷ xs) ≡ false = apart y i in
      (ground (arith, patched-prev f p y), ground (arith, patched-next f p y))
