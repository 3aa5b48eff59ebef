-- ===== src/Vmm/Alloc/Split.antt =====
-- The first pages of a free region become busy, and the rest a new free region.
use shmdos.Prelude.{
  ℕ, ◌+◌, ◌-◌, ◌≤◌, ◌<◌, ◌≡◌, ◌≢◌, refl, ap, ◌∙◌, ◌||◌, ◌⊎◌, inl, inr, true, false, List, [], ◌∷◌,
  ◌++◌, arith, ltb, ◌==◌, Bool-cases, ==_iff,
}
use shmdos.Vmm.Pages.{Pages, size_class, set_busy_region, take_item, add_free_region, split_region}
use shmdos.Vmm.Chain.{has}
use shmdos.Vmm.Lists.{with_item, Added, add-Added, free_words, free_words-at}
use shmdos.Vmm.Blocks.{Block, free, busy, total, word_at, word_at-middle}
use shmdos.Vmm.Invariant.{
  items_of, max_pages, Owned-has, Inv, Exchange, BlockInv-exchange, items_of-append, has-append,
  append-Distinct,
}
use shmdos.Vmm.Alloc.Whole.{
  busy_words, found, lists_after, busy-kept, busy-base, busy-regions, after-has, busy-ListInv,
}

module _ (v : Pages) (xs ys : List Block) (p n : ℕ)
    (inv : Inv v (xs ++ ((free p n ∷ []) ++ ys))) where
  -- The item of the block is that of no other block.
  pub not_elsewhere : (has p (items_of xs) || has p (items_of ys)) ≡ false
  not_elsewhere =
      let e : items_of (xs ++ ((free p n ∷ []) ++ ys)) ≡ items_of xs ++ (p ∷ items_of ys) =
        items_of-append xs (free p n ∷ ys) in
      let (dx, d, apart) =
        append-Distinct (items_of xs) (p ∷ items_of ys) (rw e at inv.block_inv.once) in
      elim (Bool-cases (has p (items_of xs))) [
        | inl i ↦ absurd (ground (arith, apart p i))
        | inr o ↦ rw (o, d.0) refl
      ]

  -- The item of every other block is in a list.
  pub elsewhere-has :
      (q : ℕ)
      → (has q (items_of xs) || has q (items_of ys)) ≡ true
      → (c : ℕ) × (has q (inv.lists c) ≡ true)
  elsewhere-has q i =
      Owned-has v.items inv.lists 0 q (xs ++ ((free p n ∷ []) ++ ys)) inv.block_inv.owned (
        rw (items_of-append xs (free p n ∷ ys))
          (ground (arith, has-append q (items_of xs) (p ∷ items_of ys))))

module _ (v : Pages) (xs ys : List Block) (p n : ℕ) (inv : Inv v (xs ++ ((free p n ∷ []) ++ ys)))
    (m : ℕ) (pos : 0 < m) (less : m < n) where
  unfoldable pub busy_part : Pages
  busy_part = set_busy_region v (size_class n) p m

  unfoldable pub item : ℕ
  item = (take_item busy_part).0

  added :
      Added busy_part
        (lists_after v xs ys p n inv)
        (p ∷ inv.pool)
        (total xs + m)
        (n - m)
        (add_free_region busy_part (total xs + m) (n - m))
        item
  unfolding busy_part item
  added =
      add-Added busy_part (lists_after v xs ys p n inv) (p ∷ inv.pool) (total xs + m) (n - m)
        (busy-ListInv v xs ys p n inv m)

  -- The new item is that of no other block: another block's item is in a list.
  item-ne : (q : ℕ) → (has q (items_of xs) || has q (items_of ys)) ≡ true → q ≢ item
  item-ne q i e = elim (Bool-cases (q == p)) [
    | inl self ↦ ground (arith, not_elsewhere v xs ys p n inv, (==_iff q p).0 self)
    | inr other ↦
        let (c, h) = elsewhere-has v xs ys p n inv q i in
        let kept = (busy-kept v xs ys p n inv m q (ground arith)).2 c h in
        ground (arith, added.unlisted c, kept)
  ]

  split-words :
      (add_free_region busy_part (total xs + m) (n - m)).regions
      ≡ free_words (busy_words v.regions (total xs) m) (total xs + m) (n - m) item
  unfolding busy_part
  split-words =
      added.words
      ∙ ap (λ r. free_words r (total xs + m) (n - m) item) (busy-regions v xs ys p n inv m)

  -- The words outside the region stay.
  split-outside :
      (i : ℕ)
      → (i < total xs) ⊎ (total xs + n ≤ i)
      → free_words (busy_words v.regions (total xs) m) (total xs + m) (n - m) item i ≡ v.regions i
  split-outside i out =
      rw (free_words-at (busy_words v.regions (total xs) m) (total xs + m) (n - m) item i)
        (ground arith)

  part-kept :
      (q : ℕ)
      → q ≢ p
      → ((busy_part.items q).num_pages ≡ (v.items q).num_pages)
        × ((busy_part.items q).page_base ≡ (v.items q).page_base)
        × ((d : ℕ) → has q (inv.lists d) ≡ true → has q (lists_after v xs ys p n inv d) ≡ true)
  unfolding busy_part
  part-kept q ne = busy-kept v xs ys p n inv m q ne

  split-inside :
      (j : ℕ)
      → j < m + (n - m + 0)
      → free_words (busy_words v.regions (total xs) m) (total xs + m) (n - m) item (total xs + j)
        ≡ word_at (busy 0 m ∷ free item (n - m) ∷ []) j
  split-inside j lt =
      let facts = (found v xs ys p n inv).0 in
      let was = inv.block_inv.words (total xs + j) in
      let mid = word_at-middle xs (free p n ∷ []) ys j (omega arith) in
      rw
        (free_words-at (busy_words v.regions (total xs) m) (total xs + m) (n - m) item
          (total xs + j))
        (elim (Bool-cases (ltb j m)) [
          | inl first ↦ rw first (ground (arith, facts))
          | inr second ↦ rw second (ground (arith, facts, was, mid))
        ])

  pub lists_split : ℕ → List ℕ
  lists_split = with_item (lists_after v xs ys p n inv) (size_class (n - m)) item

  with-keeps :
      (d q : ℕ) → has q (lists_after v xs ys p n inv d) ≡ true → has q (lists_split d) ≡ true
  unfolding lists_split
  with-keeps d q h = ground arith

  with_self : has item (lists_split (size_class (n - m))) ≡ true
  unfolding lists_split
  with_self = ground arith

  split-listed :
      (d q : ℕ)
      → has q (lists_split d) ≡ true
      → (has q (item ∷ []) ≡ true) ⊎ ((has q (inv.lists d) ≡ true) × (has q (p ∷ []) ≡ false))
  unfolding lists_split
  split-listed d q h = elim (Bool-cases (q == item)) [
    | inl self ↦ inl (rw self)
    | inr other ↦ inr (after-has v xs ys p n inv d q (ground arith))
  ]

  split-Exchange :
      Exchange v inv.lists
        (add_free_region busy_part (total xs + m) (n - m))
        lists_split
        xs
        (free p n ∷ [])
        (busy 0 m ∷ free item (n - m) ∷ [])
        ys
  split-Exchange = record {
    same_total = omega arith;
    below = λ i lt. rw split-words (split-outside i (inl lt));
    inside = λ j lt. rw split-words (split-inside j lt);
    above = λ i le. rw split-words (split-outside i (inr (omega arith)));
    kept = kept;
    new_owned = (
      (pos, omega (arith, facts.1), omega arith),
      (
        (omega arith, omega (arith, facts.1), added.valid.0),
        with_self,
        added.size_is,
        added.base_is,
        tt,
      ),
    );
    new_listed = split-listed;
    new_once = (refl, tt);
    new_apart = λ q i. apart q (ground arith);
  }
    where
      facts : (0 < n) × (n < max_pages) × (p ≢ 0)
      facts = (found v xs ys p n inv).0

      apart : (q : ℕ) → q ≡ item → (has q (items_of xs) || has q (items_of ys)) ≡ false
      apart q e = elim (Bool-cases (has q (items_of xs) || has q (items_of ys))) [
        | inl i ↦ absurd (item-ne q i e)
        | inr o ↦ o
      ]

      kept :
          (q : ℕ)
          → (has q (items_of xs) || has q (items_of ys)) ≡ true
          → has q (p ∷ []) ≡ false
          → (((add_free_region busy_part (total xs + m) (n - m)).items q).num_pages
              ≡ (v.items q).num_pages)
            × (((add_free_region busy_part (total xs + m) (n - m)).items q).page_base
                ≡ (v.items q).page_base)
            × ((d : ℕ) → has q (inv.lists d) ≡ true → has q (lists_split d) ≡ true)
      kept q i out =
          let one = part-kept q (ground arith) in
          let two = added.other q (item-ne q i) in
          (two.0 ∙ one.0, two.1 ∙ one.1, λ d h. with-keeps d q (one.2 d h))

  -- The first `m` pages are busy and the rest free, and the first page is the result.
  pub split-Inv :
      ((split_region v (size_class n) p m (n - m)).0 ≡ total xs)
      × Inv
          (split_region v (size_class n) p m (n - m)).1
          (xs ++ ((busy 0 m ∷ free item (n - m) ∷ []) ++ ys))
  unfolding split_region busy_part lists_split
  split-Inv = (
    (found v xs ys p n inv).3,
    rw (busy-base v xs ys p n inv m) (record {
      lists = lists_split;
      pool = _;
      list_inv = added.inv;
      block_inv = BlockInv-exchange inv.block_inv split-Exchange;
    }),
  )
