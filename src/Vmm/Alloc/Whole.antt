-- ===== src/Vmm/Alloc/Whole.antt =====
-- A free region becomes busy as a whole.
use shmdos.Prelude.{
  ℕ, ◌+◌, ◌-◌, ◌*◌, ◌%◌, ◌<◌, ◌≡◌, ◌≢◌, refl, ◌∙◌, inr, true, false, List, [], ◌∷◌, ◌++◌, arith,
  ltb, if◌then◌else◌, update,
}
use shmdos.Vmm.Pages.{
  Pages, word_mod, busy_flag, size_class, delete_free_region, set_busy_region, whole_region,
}
use shmdos.Vmm.Chain.{has}
use shmdos.Vmm.Lists.{
  ListInv, ListInv-regions, without, delete-ListInv, delete-data, delete-regions, delete-kept,
  delete-has,
}
use shmdos.Vmm.Blocks.{Block, free, busy, total, word_at, word_at-middle}
use shmdos.Vmm.Invariant.{max_pages, Owned, append-Owned, Inv, Exchange, BlockInv-exchange}

-- The words that `setBusyRegion` leaves.
abbrev pub busy_words : (ℕ → ℕ) → ℕ → ℕ → ℕ → ℕ
busy_words r base n =
    let r' = update r base (n * 4096 % word_mod + busy_flag) in
    if ltb 1 n then update r' (base + n - 1) busy_flag else r'

module _ (v : Pages) (xs ys : List Block) (p n : ℕ)
    (inv : Inv v (xs ++ ((free p n ∷ []) ++ ys))) where
  c : ℕ
  c = size_class n

  -- What the invariant says of the block.
  pub found :
      ((0 < n) × (n < max_pages) × (p ≢ 0))
      × (has p (inv.lists (size_class n)) ≡ true)
      × ((v.items p).num_pages ≡ n)
      × ((v.items p).page_base ≡ total xs)
      × Owned v.items inv.lists (0 + total xs + n) ys
  found =
      let (ox, o) = append-Owned v.items inv.lists 0 xs (free p n ∷ ys) inv.block_inv.owned in
      (o.0, o.1, o.2, o.3 ∙ omega arith, o.4)

  pub set_busy-parts :
      (m : ℕ)
      → set_busy_region v (size_class n) p m ≡ record (delete_free_region v (size_class n) p) {
        regions = busy_words v.regions (total xs) m;
      }
  unfolding set_busy_region
  set_busy-parts m = rw (delete-regions v (size_class n) p, found.3) refl

  pub lists_after : ℕ → List ℕ
  lists_after = without inv.lists (size_class n) p

  -- Every other item keeps its size, its place and its list.
  pub busy-kept :
      (m q : ℕ)
      → q ≢ p
      → (((set_busy_region v (size_class n) p m).items q).num_pages ≡ (v.items q).num_pages)
        × (((set_busy_region v (size_class n) p m).items q).page_base ≡ (v.items q).page_base)
        × ((d : ℕ) → has q (inv.lists d) ≡ true → has q (lists_after d) ≡ true)
  unfolding lists_after
  busy-kept m q ne =
      rw (set_busy-parts m)
        (delete-kept v inv.lists inv.pool inv.list_inv (size_class n) p found.1 q ne)

  pub busy-base : (m : ℕ) → ((set_busy_region v (size_class n) p m).items p).page_base ≡ total xs
  busy-base m =
      let facts = delete-data v inv.lists inv.pool inv.list_inv (size_class n) p found.1 p in
      rw (set_busy-parts m) (facts.1 ∙ found.3)

  pub busy-regions :
      (m : ℕ) → (set_busy_region v (size_class n) p m).regions ≡ busy_words v.regions (total xs) m
  busy-regions m = rw (set_busy-parts m) refl

  -- An item of a list afterwards was in it before, and is another.
  pub after-has :
      (d q : ℕ)
      → has q (lists_after d) ≡ true
      → (has q (inv.lists d) ≡ true) × (has q (p ∷ []) ≡ false)
  unfolding lists_after
  after-has d q i = delete-has v inv.lists inv.pool inv.list_inv (size_class n) p found.1 d q i

  whole-Exchange :
      Exchange v inv.lists
        (set_busy_region v (size_class n) p n)
        lists_after
        xs
        (free p n ∷ [])
        (busy 0 n ∷ [])
        ys
  whole-Exchange = record {
    same_total = refl;
    below = λ i lt. rw (busy-regions n) (ground arith);
    inside = λ j lt. rw (busy-regions n) (inside j lt);
    above = λ i le. rw (busy-regions n) (ground (arith, found.0));
    kept = λ q i out. busy-kept n q (ground arith);
    new_owned = ((found.0.0, found.0.1, omega arith), tt);
    new_listed = λ d q i. inr (after-has d q i);
    new_once = tt;
    new_apart = λ q i. absurd (ground arith);
  }
    where
      inside :
          (j : ℕ)
          → j < n + 0
          → busy_words v.regions (total xs) n (total xs + j) ≡ word_at (busy 0 n ∷ []) j
      inside j lt = ground (
        arith,
        found.0,
        inv.block_inv.words (total xs + j),
        word_at-middle xs (free p n ∷ []) ys j lt,
      )

  pub busy-ListInv :
      (m : ℕ) → ListInv (set_busy_region v (size_class n) p m) lists_after (p ∷ inv.pool)
  unfolding lists_after
  busy-ListInv m = rw (set_busy-parts m) (
      ListInv-regions (delete_free_region v (size_class n) p) _ _ _
        (delete-ListInv v inv.lists inv.pool inv.list_inv (size_class n) p found.1))

  -- The region is busy as a whole and its first page the result.
  pub whole-Inv :
      ((whole_region v (size_class n) p n).0 ≡ total xs)
      × Inv (whole_region v (size_class n) p n).1 (xs ++ ((busy 0 n ∷ []) ++ ys))
  unfolding whole_region
  whole-Inv = (
    found.3,
    record {
      lists = lists_after;
      pool = p ∷ inv.pool;
      list_inv = busy-ListInv n;
      block_inv = BlockInv-exchange inv.block_inv whole-Exchange;
    },
  )
