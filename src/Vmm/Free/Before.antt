-- ===== src/Vmm/Free/Before.antt =====
-- The free region before the pages that are freed joins them.
use shmdos.Prelude.{
  ℕ, ◌+◌, ◌-◌, ◌*◌, ◌%◌, ◌≤◌, ◌<◌, ◌≡◌, ◌≢◌, refl, ◌∙◌, inr, true, false, none, some, List, [], ◌∷◌,
  ◌++◌, arith, ltb, ◌==◌, if◌then◌else◌, update,
}
use shmdos.Vmm.Pages.{
  Pages, busy_flag, size_class, free_neighbour, delete_free_region, merge_before,
}
use shmdos.Vmm.Chain.{has}
use shmdos.Vmm.Lists.{
  ListInv-regions, without, delete-ListInv, delete-regions, delete-kept, delete-has,
}
use shmdos.Vmm.Blocks.{Block, free, limbo, total, word_at, word_at-middle}
use shmdos.Vmm.Invariant.{max_pages, append-Owned, Inv, Exchange, BlockInv-exchange}

-- A word that is an item leads to that item; a busy word and 0 lead to none.
pub free_neighbour-item : (p : ℕ) → p ≢ 0 → p % 4 ≡ 0 → free_neighbour p ≡ some p
free_neighbour-item p nz al = ground arith

pub free_neighbour-busy : (n a : ℕ) → a ≤ 1 → free_neighbour (n * 4096 + busy_flag + a) ≡ none
free_neighbour-busy n a le = ground arith

module _ (v : Pages) (xs ys : List Block) (p k w z m : ℕ)
    (inv : Inv v (xs ++ ((free p k ∷ limbo w z m ∷ []) ++ ys))) where
  found :
      ((0 < k) × (k < max_pages) × (p ≢ 0))
      × (has p (inv.lists (size_class k)) ≡ true)
      × ((v.items p).num_pages ≡ k)
      × ((v.items p).page_base ≡ total xs)
      × (0 < m)
  found =
      let (ox, o) =
        append-Owned v.items inv.lists 0 xs (free p k ∷ limbo w z m ∷ ys) inv.block_inv.owned in
      (o.0, o.1, o.2, o.3 ∙ omega arith, o.4.0)

  neighbour : free_neighbour (v.regions (total xs + k - 1)) ≡ some p
  neighbour =
      let last : total xs + k - 1 ≡ total xs + (k - 1) = omega (arith, found.0) in
      let known = inv.list_inv.known (size_class k) p found.1 in
      let mid =
        word_at-middle xs (free p k ∷ limbo w z m ∷ []) ys (k - 1) (omega (arith, found.0)) in
      let word : v.regions (total xs + (k - 1)) ≡ p =
        inv.block_inv.words (total xs + (k - 1)) ∙ mid ∙ ground (arith, found.0) in
      rw (last, word) (free_neighbour-item p known.0 known.1)

  -- The words after the join: the inner ends are cleared.
  abbrev joined_words : ℕ → ℕ
  joined_words =
      let r = update v.regions (total xs + k) 0 in
      if ltb 1 k then update r (total xs + k - 1) 0 else r

  pub joined : Pages
  joined = record (delete_free_region v (size_class k) p) { regions = joined_words }

  pub merge_before-joined :
      merge_before v (total xs + k) m ≡ record { pages = joined; base = total xs; size = m + k }
  unfolding merge_before joined
  merge_before-joined =
      let pos : (total xs + k == 0) ≡ false = ground (arith, found.0) in
      rw (pos, neighbour, merge_before)
        (rw (found.2, found.3, delete-regions v (size_class k) p) refl)

  joined-Exchange :
      Exchange v inv.lists joined
        (without inv.lists (size_class k) p)
        xs
        (free p k ∷ limbo w z m ∷ [])
        (limbo p (if m == 1 then 0 else z) (k + m) ∷ [])
        ys
  unfolding joined
  joined-Exchange = record {
    same_total = omega arith;
    below = λ i lt. ground (arith, found.0);
    inside = λ j lt. inside j lt;
    above = λ i le. ground (arith, found.0, found.4);
    kept = λ q i out.
        delete-kept v inv.lists inv.pool inv.list_inv (size_class k) p found.1 q (ground arith);
    new_owned = (omega (arith, found.0), tt);
    new_listed =
        λ d q i. inr (delete-has v inv.lists inv.pool inv.list_inv (size_class k) p found.1 d q i);
    new_once = tt;
    new_apart = λ q i. absurd (ground arith);
  }
    where
      inside :
          (j : ℕ)
          → j < k + m + 0
          → joined_words (total xs + j) ≡ word_at (limbo p (if m == 1 then 0 else z) (k + m) ∷ []) j
      inside j lt = ground (
        arith,
        found.0,
        found.4,
        inv.block_inv.words (total xs + j),
        word_at-middle xs (free p k ∷ limbo w z m ∷ []) ys j (omega arith),
      )

  pub joined-Inv : Inv joined (xs ++ ((limbo p (if m == 1 then 0 else z) (k + m) ∷ []) ++ ys))
  unfolding joined
  joined-Inv = record {
    lists = without inv.lists (size_class k) p;
    pool = p ∷ inv.pool;
    list_inv =
        ListInv-regions (delete_free_region v (size_class k) p) _ _ _
          (delete-ListInv v inv.lists inv.pool inv.list_inv (size_class k) p found.1);
    block_inv = BlockInv-exchange inv.block_inv joined-Exchange;
  }
