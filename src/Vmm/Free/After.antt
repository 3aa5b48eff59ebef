-- ===== src/Vmm/Free/After.antt =====
-- The free region behind the pages that are freed joins them.
use shmdos.Prelude.{
  ℕ, ◌+◌, ◌-◌, ◌<◌, ◌≡◌, ◌≢◌, refl, ◌∙◌, inr, true, some, List, [], ◌∷◌, ◌++◌, arith, ◌==◌,
  if◌then◌else◌, update,
}
use shmdos.Vmm.Pages.{Pages, size_class, free_neighbour, delete_free_region, merge_after}
use shmdos.Vmm.Chain.{has}
use shmdos.Vmm.Lists.{
  ListInv-regions, without, delete-ListInv, delete-data, delete-regions, delete-kept, delete-has,
}
use shmdos.Vmm.Blocks.{Block, free, limbo, total, word_at, word_at-middle}
use shmdos.Vmm.Invariant.{max_pages, append-Owned, Inv, Exchange, BlockInv-exchange}
use shmdos.Vmm.Free.Before.{free_neighbour-item}

module _ (v : Pages) (xs ys : List Block) (w z s q k : ℕ)
    (inv : Inv v (xs ++ ((limbo w z s ∷ free q k ∷ []) ++ ys))) where
  found :
      ((0 < k) × (k < max_pages) × (q ≢ 0))
      × (has q (inv.lists (size_class k)) ≡ true)
      × ((v.items q).num_pages ≡ k)
      × ((v.items q).page_base ≡ total xs + s)
      × (0 < s)
  found =
      let (ox, o) =
        append-Owned v.items inv.lists 0 xs (limbo w z s ∷ free q k ∷ ys) inv.block_inv.owned in
      (o.1.0, o.1.1, o.1.2, o.1.3 ∙ omega arith, o.0)

  neighbour : free_neighbour (v.regions (total xs + s)) ≡ some q
  neighbour =
      let known = inv.list_inv.known (size_class k) q found.1 in
      let mid = word_at-middle xs (limbo w z s ∷ free q k ∷ []) ys s (omega (arith, found.0)) in
      let word : v.regions (total xs + s) ≡ q =
        inv.block_inv.words (total xs + s) ∙ mid ∙ ground (arith, found.0) in
      rw word (free_neighbour-item q known.0 known.1)

  abbrev joined_words : ℕ → ℕ
  joined_words = update (update v.regions (total xs + s - 1) 0) (total xs + s) 0

  pub joined : Pages
  joined = record (delete_free_region v (size_class k) q) { regions = joined_words }

  pub merge_after-joined :
      merge_after (record { pages = v; base = total xs; size = s }) (total xs + s)
      ≡ record { pages = joined; base = total xs; size = s + k }
  unfolding merge_after joined
  merge_after-joined =
      let facts = delete-data v inv.lists inv.pool inv.list_inv (size_class k) q found.1 q in
      rw (neighbour, merge_after)
        (rw (found.2, facts.1, found.3, delete-regions v (size_class k) q) refl)

  joined-Exchange :
      Exchange v inv.lists joined
        (without inv.lists (size_class k) q)
        xs
        (limbo w z s ∷ free q k ∷ [])
        (limbo (if s == 1 then 0 else w) (if k == 1 then 0 else q) (s + k) ∷ [])
        ys
  unfolding joined
  joined-Exchange = record {
    same_total = omega arith;
    below = λ i lt. ground (arith, found.4);
    inside = λ j lt. inside j lt;
    above = λ i le. ground (arith, found.0, found.4);
    kept = λ p i out.
        delete-kept v inv.lists inv.pool inv.list_inv (size_class k) q found.1 p (ground arith);
    new_owned = (omega (arith, found.0), tt);
    new_listed =
        λ d p i. inr (delete-has v inv.lists inv.pool inv.list_inv (size_class k) q found.1 d p i);
    new_once = tt;
    new_apart = λ p i. absurd (ground arith);
  }
    where
      inside :
          (j : ℕ)
          → j < s + k + 0
          → joined_words (total xs + j)
            ≡ word_at (limbo (if s == 1 then 0 else w) (if k == 1 then 0 else q) (s + k) ∷ []) j
      inside j lt = ground (
        arith,
        found.0,
        found.4,
        inv.block_inv.words (total xs + j),
        word_at-middle xs (limbo w z s ∷ free q k ∷ []) ys j (omega arith),
      )

  pub joined-Inv :
      Inv joined
        (xs ++ ((limbo (if s == 1 then 0 else w) (if k == 1 then 0 else q) (s + k) ∷ []) ++ ys))
  unfolding joined
  joined-Inv = record {
    lists = without inv.lists (size_class k) q;
    pool = q ∷ inv.pool;
    list_inv =
        ListInv-regions (delete_free_region v (size_class k) q) _ _ _
          (delete-ListInv v inv.lists inv.pool inv.list_inv (size_class k) q found.1);
    block_inv = BlockInv-exchange inv.block_inv joined-Exchange;
  }
