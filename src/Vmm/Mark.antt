-- ===== src/Vmm/Mark.antt =====
-- `VMM_REG_ALLOC_FLAG` on an allocated block, as `alloc` of kernel/VirtualMemoryManager.cpp sets it.
use shmdos.Prelude.{ℕ, ◌+◌, ◌≤◌, ◌<◌, refl, inr, List, [], ◌∷◌, ◌++◌, arith}
use shmdos.Vmm.Pages.{Pages, mark_allocated}
use shmdos.Vmm.Blocks.{Block, busy, total, word_at-middle}
use shmdos.Vmm.Lists.{ListInv-regions}
use shmdos.Vmm.Invariant.{max_pages, append-Owned, Inv, Exchange, BlockInv-exchange}

module _ (v : Pages) (xs ys : List Block) (a n : ℕ)
    (inv : Inv v (xs ++ ((busy a n ∷ []) ++ ys))) where
  found : (0 < n) × (n < max_pages) × (a ≤ 1)
  found =
      let (ox, o) = append-Owned v.items inv.lists 0 xs (busy a n ∷ ys) inv.block_inv.owned in o.0

  mark-Exchange :
      Exchange v inv.lists
        (mark_allocated v (total xs))
        inv.lists
        xs
        (busy a n ∷ [])
        (busy 1 n ∷ [])
        ys
  unfolding mark_allocated
  mark-Exchange = record {
    same_total = refl;
    below = λ i lt. ground arith;
    inside = λ j lt. ground (
      arith,
      found,
      inv.block_inv.words (total xs + j),
      inv.block_inv.words (total xs),
      word_at-middle xs (busy a n ∷ []) ys j lt,
    );
    above = λ i le. ground (arith, found);
    kept = λ q i out. (refl, refl, λ c h. h);
    new_owned = ((found.0, found.1, omega arith), tt);
    new_listed = λ d q i. inr (i, refl);
    new_once = tt;
    new_apart = λ q i. absurd (ground arith);
  }

  -- The block of the page has the flag, and no other changes.
  pub mark-Inv : Inv (mark_allocated v (total xs)) (xs ++ ((busy 1 n ∷ []) ++ ys))
  unfolding mark_allocated
  mark-Inv = record {
    lists = inv.lists;
    pool = inv.pool;
    list_inv = ListInv-regions v _ _ _ inv.list_inv;
    block_inv = BlockInv-exchange inv.block_inv mark-Exchange;
  }
