-- ===== src/Vmm/Free/Release.antt =====
-- The pages that are freed become a free region.
use shmdos.Prelude.{
  ℕ, ◌+◌, ◌-◌, ◌<◌, ◌≡◌, ◌≢◌, refl, ap, ◌∙◌, ◌&&◌, ◌||◌, ◌⊎◌, inl, inr, true, false, List, [], ◌∷◌,
  ◌++◌, arith, ltb, ◌==◌, Bool-cases, if◌then◌else◌,
}
use shmdos.Vmm.Pages.{Pages, size_class, take_item, add_free_region}
use shmdos.Vmm.Chain.{has}
use shmdos.Vmm.Lists.{with_item, rest_of, Added, add-Added, free_words-at}
use shmdos.Vmm.Blocks.{Block, free, limbo, total, total-append, word_at, word_at-middle}
use shmdos.Vmm.Invariant.{
  items_of, max_pages, Owned-has, append-Owned, Inv, Exchange, BlockInv-exchange, items_of-append,
  has-append,
}

module _ (v : Pages) (xs ys : List Block) (w z s : ℕ)
    (inv : Inv v (xs ++ ((limbo w z s ∷ []) ++ ys))) where
  positive : 0 < s
  positive =
      let (ox, o) = append-Owned v.items inv.lists 0 xs (limbo w z s ∷ ys) inv.block_inv.owned in
      o.0

  small : s < max_pages
  small = omega (arith, inv.block_inv.small, total-append xs (limbo w z s ∷ ys))

  unfoldable pub item : ℕ
  item = (take_item v).0

  added : Added v inv.lists inv.pool (total xs) s (add_free_region v (total xs) s) item
  unfolding item
  added = add-Added v inv.lists inv.pool (total xs) s inv.list_inv

  item-ne : (q : ℕ) → (has q (items_of xs) || has q (items_of ys)) ≡ true → q ≢ item
  item-ne q i e =
      let (c, h) =
        Owned-has v.items inv.lists 0 q (xs ++ ((limbo w z s ∷ []) ++ ys)) inv.block_inv.owned (
          rw (items_of-append xs (limbo w z s ∷ ys))
            (ground (arith, has-append q (items_of xs) (items_of ys)))) in
      ground (arith, added.unlisted c, h)

  lists_after : ℕ → List ℕ
  lists_after = with_item inv.lists (size_class s) item

  with_self : has item (lists_after (size_class s)) ≡ true
  unfolding lists_after
  with_self = ground arith

  with-keeps : (d q : ℕ) → has q (inv.lists d) ≡ true → has q (lists_after d) ≡ true
  unfolding lists_after
  with-keeps d q h = ground arith

  with-listed :
      (d q : ℕ)
      → has q (lists_after d) ≡ true
      → (has q (item ∷ []) ≡ true) ⊎ ((has q (inv.lists d) ≡ true) × (false ≡ false))
  unfolding lists_after
  with-listed d q h = elim (Bool-cases (q == item)) [
    | inl self ↦ inl (rw self)
    | inr other ↦ inr (ground arith, refl)
  ]

  words :
      (i : ℕ)
      → (add_free_region v (total xs) s).regions i ≡ (
          if ltb 1 s && i == total xs + s - 1
          then item
          else (if i == total xs then item else v.regions i))
  words i = ap (λ r. r i) added.words ∙ free_words-at v.regions (total xs) s item i

  release-Exchange :
      Exchange v inv.lists
        (add_free_region v (total xs) s)
        lists_after
        xs
        (limbo w z s ∷ [])
        (free item s ∷ [])
        ys
  release-Exchange = record {
    same_total = refl;
    below = λ i lt. rw (words i) (ground (arith, positive));
    inside = λ j lt. rw (words (total xs + j)) (inside j lt);
    above = λ i le. rw (words i) (ground (arith, positive));
    kept = λ q i out.
        let other = added.other q (item-ne q i) in (other.0, other.1, λ d h. with-keeps d q h);
    new_owned = ((positive, small, added.valid.0), with_self, added.size_is, added.base_is, tt);
    new_listed = with-listed;
    new_once = (refl, tt);
    new_apart = λ q i. apart q (ground arith);
  }
    where
      inside :
          (j : ℕ)
          → j < s + 0
          → (if ltb 1 s && total xs + j == total xs + s - 1
              then item
              else (if total xs + j == total xs then item else v.regions (total xs + j)))
            ≡ word_at (free item s ∷ []) j
      inside j lt = ground (
        arith,
        positive,
        inv.block_inv.words (total xs + j),
        word_at-middle xs (limbo w z s ∷ []) ys j lt,
      )

      apart : (q : ℕ) → q ≡ item → (has q (items_of xs) || has q (items_of ys)) ≡ false
      apart q e = elim (Bool-cases (has q (items_of xs) || has q (items_of ys))) [
        | inl i ↦ absurd (item-ne q i e)
        | inr o ↦ o
      ]

  pub release-Inv : Inv (add_free_region v (total xs) s) (xs ++ ((free item s ∷ []) ++ ys))
  unfolding lists_after
  release-Inv = record {
    lists = lists_after;
    pool = rest_of inv.pool;
    list_inv = added.inv;
    block_inv = BlockInv-exchange inv.block_inv release-Exchange;
  }
