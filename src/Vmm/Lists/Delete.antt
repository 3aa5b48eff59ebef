-- ===== src/Vmm/Lists/Delete.antt =====
-- `deleteFreeRegion` moves one item from its list to the pool.
use shmdos.Prelude.{
  ℕ, ◌-◌, ◌≡◌, ◌≢◌, refl, ◌∙◌, inl, inr, true, false, List, [], ◌∷◌, arith, ◌==◌, Bool-cases,
  ==_iff, if◌then◌else◌, length, update,
}
use shmdos.Vmm.Pages.{Item, Pages, set_next, delete_free_region}
use shmdos.Vmm.Chain.{
  has, Distinct, erase, Chain, SameLinks, Chain-frame, patched, patched-data, Chain-head,
  Chain-patched, patched-SameLinks, has-erase, has-erase_self, has-erase_ne, Distinct-erase,
  length-erase,
}
use shmdos.Vmm.Lists.Defs.{ListInv, Pool, IsItem, Pool-frame}

-- The items after the neighbours of the region have been linked.
linked : Pages → ℕ → ℕ → ℕ → Item
linked v c p = if p == v.table c then v.items else patched v.items p

-- What the operation does to each part of the state.
delete-parts :
    (v : Pages) (c p : ℕ)
    → delete_free_region v c p ≡ record v {
      items = set_next (linked v c p) p v.free_items;
      table = if p == v.table c then update v.table c (v.items p).next else v.table;
      counters = update v.counters c (v.counters c - 1);
      free_items = p;
    }
unfolding delete_free_region linked patched
delete-parts v c p = ground arith

-- The list that loses the item.
abbrev pub without : (ℕ → List ℕ) → ℕ → ℕ → ℕ → List ℕ
without lists c p = update lists c (erase p (lists c))

module _ (v : Pages) (lists : ℕ → List ℕ) (pool : List ℕ) (inv : ListInv v lists pool) (c p : ℕ)
    (here : has p (lists c) ≡ true) where
  items' : ℕ → Item
  items' = set_next (linked v c p) p v.free_items

  -- Sizes and places stay.
  linked-data :
      (z : ℕ)
      → ((linked v c p z).num_pages ≡ (v.items z).num_pages)
        × ((linked v c p z).page_base ≡ (v.items z).page_base)
  unfolding linked
  linked-data z = elim (Bool-cases (p == v.table c)) [
    | inl head ↦ rw head (refl, refl)
    | inr tail ↦ rw tail (patched-data v.items p z)
  ]

  pub delete-data :
      (z : ℕ)
      → (((delete_free_region v c p).items z).num_pages ≡ (v.items z).num_pages)
        × (((delete_free_region v c p).items z).page_base ≡ (v.items z).page_base)
  delete-data z = rw (delete-parts v c p) (ground (arith, linked-data z, linked-data p))

  -- The links of every item of another list, and of the pool, stay.
  linked-SameLinks :
      (ys : List ℕ)
      → ((y : ℕ) → has y ys ≡ true → has y (lists c) ≡ false)
      → SameLinks v.items items' ys
  unfolding linked items'
  linked-SameLinks ys apart y i = elim (Bool-cases (p == v.table c)) [
    | inl head ↦ rw head (ground (arith, apart y i))
    | inr tail ↦
        let same =
          patched-SameLinks v.items p (v.table c) (lists c) ys (inv.chains c) here (ground arith)
            apart y i in
        rw tail (ground (arith, apart y i))
  ]

  frame-set_next :
      (f : ℕ → Item) (q : ℕ) (xs : List ℕ)
      → has p xs ≡ false
      → Chain f q xs
      → Chain (set_next f p v.free_items) q xs
  frame-set_next f q xs out l =
      Chain-frame f (set_next f p v.free_items) q xs (λ y i. ground arith) l

  own-Chain :
      Chain items' (if p == v.table c then (v.items p).next else v.table c) (erase p (lists c))
  unfolding linked items'
  own-Chain =
      let out = has-erase_self p (lists c) (inv.distinct c) in
      elim (Bool-cases (p == v.table c)) [
        | inl head ↦
            let at : v.table c ≡ p = ground arith in
            rw head (
              frame-set_next v.items _ _ out
                (Chain-head v.items p (lists c) (rw at at (inv.chains c)) here))
        | inr tail ↦ rw tail (
            frame-set_next (patched v.items p) _ _ out (
              Chain-patched v.items p (v.table c) (lists c) (inv.chains c) here (ground arith)
                (inv.distinct c)))
      ]

  without-has : (d y : ℕ) → has y (without lists c p d) ≡ true → has y (lists d) ≡ true
  without-has d y = elim (Bool-cases (d == c)) [
    | inl at ↦
        let eq : d ≡ c = (==_iff d c).0 at in λ h. rw eq (has-erase p y (lists c) (rw at at h))
    | inr other ↦ λ h. rw other at h
  ]

  without-has_self : (d : ℕ) → has p (without lists c p d) ≡ false
  without-has_self d = elim (Bool-cases (has p (without lists c p d))) [
    | inl h ↦
        let eq : d ≡ c = inv.apart d c p (without-has d p h) here in
        let at : (d == c) ≡ true = (==_iff d c).1 eq in
        let out = has-erase_self p (lists c) (inv.distinct c) in rw at out
    | inr h ↦ h
  ]

  chains' :
      (d : ℕ)
      → Chain items'
          ((if p == v.table c then update v.table c (v.items p).next else v.table) d)
          (without lists c p d)
  chains' d = elim (Bool-cases (d == c)) [
    | inl at ↦
        let eq : d ≡ c = (==_iff d c).0 at in
        elim (Bool-cases (p == v.table c)) [
          | inl head ↦ rw (head, at) (rw head at own-Chain)
          | inr tail ↦ rw (tail, at, eq) (rw tail at own-Chain)
        ]
    | inr other ↦
        let same : Chain items' (v.table d) (lists d) =
          Chain-frame v.items items' (v.table d) (lists d)
            (linked-SameLinks (lists d) (λ y i. apart_from d y (ground arith) i)) (inv.chains d) in
        elim (Bool-cases (p == v.table c)) [
          | inl head ↦ rw (head, other) same
          | inr tail ↦ rw (tail, other) same
        ]
  ]
    where
      apart_from : (d y : ℕ) → d ≢ c → has y (lists d) ≡ true → has y (lists c) ≡ false
      apart_from d y ne i = elim (Bool-cases (has y (lists c))) [
        | inl both ↦ absurd (ne (inv.apart d c y i both))
        | inr out ↦ out
      ]

  counts' : (d : ℕ) → update v.counters c (v.counters c - 1) d ≡ length (without lists c p d)
  counts' d = elim (Bool-cases (d == c)) [
    | inl at ↦ rw (at, inv.counts c) (omega (arith, length-erase p (lists c) here))
    | inr other ↦ rw other (inv.counts d)
  ]

  distinct' : (d : ℕ) → Distinct (without lists c p d)
  distinct' d = elim (Bool-cases (d == c)) [
    | inl at ↦ rw at (Distinct-erase p (lists c) (inv.distinct c))
    | inr other ↦ rw other (inv.distinct d)
  ]

  pool_chain' : Pool items' p (p ∷ pool)
  unfolding items'
  pool_chain' =
      let at : (items' p).next ≡ v.free_items = at_self in
      (
        refl,
        (inv.known c p here).0,
        rw at (
            Pool-frame v.items items' v.free_items pool
              (λ y i. (linked-SameLinks pool (λ z j. inv.pool_apart c z j) y i).1) inv.pool_chain),
      )
    where
      at_self : (items' p).next ≡ v.free_items
      at_self = ground arith

  -- The operation keeps the lists well formed: the item leaves its list and heads the pool.
  pub delete-ListInv : ListInv (delete_free_region v c p) (without lists c p) (p ∷ pool)
  unfolding items'
  delete-ListInv = rw (delete-parts v c p) (record {
    chains = chains';
    counts = counts';
    distinct = distinct';
    apart = λ d e y i j. inv.apart d e y (without-has d y i) (without-has e y j);
    known = λ d y i. inv.known d y (without-has d y i);
    pool_chain = pool_chain';
    pool_distinct = (not_pooled, inv.pool_distinct);
    pool_known = λ y i. pool_known' y i;
    pool_apart = λ d y i. pool_apart' d y i;
    start = inv.start;
  })
    where
      not_pooled : has p pool ≡ false
      not_pooled = ground (arith, inv.pool_apart c p)

      pool_known' : (y : ℕ) → has y (p ∷ pool) ≡ true → IsItem v.items_start y
      pool_known' y i = ground (arith, inv.pool_known y, inv.known c p here)

      pool_apart' : (d y : ℕ) → has y (p ∷ pool) ≡ true → has y (without lists c p d) ≡ false
      pool_apart' d y i = elim (Bool-cases (y == p)) [
        | inl self ↦ rw ((==_iff y p).0 self) (without-has_self d)
        | inr other ↦ elim (Bool-cases (has y (without lists c p d))) [
          | inl h ↦ ground (arith, inv.pool_apart d y, without-has d y h)
          | inr h ↦ h
        ]
      ]

pub delete-regions : (v : Pages) (c p : ℕ) → (delete_free_region v c p).regions ≡ v.regions
delete-regions v c p = rw (delete-parts v c p)

-- Every other item stays in its list.
without-keeps :
    (lists : ℕ → List ℕ) (c p q d : ℕ)
    → q ≢ p
    → has q (lists d) ≡ true
    → has q (without lists c p d) ≡ true
without-keeps lists c p q d ne h = elim (Bool-cases (d == c)) [
  | inl at ↦
      let eq : d ≡ c = (==_iff d c).0 at in rw at (has-erase_ne p q (lists c) ne ∙ (rw eq at h))
  | inr other ↦ rw other h
]

module _ (v : Pages) (lists : ℕ → List ℕ) (pool : List ℕ) (inv : ListInv v lists pool) (c p : ℕ)
    (here : has p (lists c) ≡ true) where
  -- Every other item keeps its size, its place and its list.
  pub delete-kept :
      (q : ℕ)
      → q ≢ p
      → (((delete_free_region v c p).items q).num_pages ≡ (v.items q).num_pages)
        × (((delete_free_region v c p).items q).page_base ≡ (v.items q).page_base)
        × ((d : ℕ) → has q (lists d) ≡ true → has q (without lists c p d) ≡ true)
  delete-kept q ne =
      let facts = delete-data v lists pool inv c p here q in
      (facts.0, facts.1, λ d h. without-keeps lists c p q d ne h)

  -- An item of a list afterwards was in it before, and is another.
  pub delete-has :
      (d q : ℕ)
      → has q (without lists c p d) ≡ true
      → (has q (lists d) ≡ true) × (has q (p ∷ []) ≡ false)
  delete-has d q i =
      let out = without-has_self v lists pool inv c p here d in
      (
        without-has v lists pool inv c p here d q i,
        elim (Bool-cases (q == p)) [
          | inl self ↦ absurd (ground (arith, out, i))
          | inr other ↦ rw other
        ],
      )
