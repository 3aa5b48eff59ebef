-- ===== src/Vmm/Free/Correct.antt =====
-- What `freePages` of kernel/VirtualMemoryManager.cpp does on a page where a busy block begins, and
-- on any other.
use shmdos.Prelude.{
  ℕ, ◌+◌, ◌*◌, ◌/◌, ◌≤◌, ◌<◌, ◌≡◌, refl, ap, ◌∙◌, inr, true, false, List, [], ◌∷◌, ◌++◌, arith,
  ◌==◌, if◌then◌else◌,
}
use shmdos.Vmm.Pages.{
  Pages, busy_flag, is_busy, merge_before, merge_after, add_free_region, free_pages,
}
use shmdos.Vmm.Blocks.{Block, busy, limbo, total, word_at-middle}
use shmdos.Vmm.Invariant.{max_pages, append-Owned, Inv, Exchange, BlockInv-exchange}
use shmdos.Vmm.Free.Spec.{Settled, strip_last, strip_first, freed}
use shmdos.Vmm.Free.Steps.{both_steps}
use shmdos.Vmm.Free.Release

-- What `freePages` does once the word of the page is busy, by the number of pages in it.
abbrev freeing : Pages → ℕ → ℕ → ℕ × Pages
freeing v base n =
    let m = merge_after (merge_before v base n) (base + n) in
    if n == 0 then (0, v) else (n, add_free_region m.pages m.base m.size)

free_pages-busy :
    (v : Pages) (base : ℕ)
    → is_busy (v.regions base) ≡ true
    → free_pages v base ≡ freeing v base (v.regions base / 4096)
unfolding free_pages
free_pages-busy v base flag = rw flag refl

module _ (v : Pages) (xs ys : List Block) (a n : ℕ)
    (inv : Inv v (xs ++ ((busy a n ∷ []) ++ ys))) where
  found : (0 < n) × (n < max_pages) × (a ≤ 1)
  found =
      let (ox, o) = append-Owned v.items inv.lists 0 xs (busy a n ∷ ys) inv.block_inv.owned in o.0

  head : v.regions (total xs) ≡ n * 4096 + busy_flag + a
  head =
      let at : total xs + 0 ≡ total xs = omega arith in
      let mid = word_at-middle xs (busy a n ∷ []) ys 0 (omega (arith, found)) in
      let word = inv.block_inv.words (total xs + 0) ∙ mid in rw at at word ∙ ground (arith, found)

  -- The same state, read as one in which the block is being freed.
  released-Exchange :
      Exchange v inv.lists v inv.lists xs
        (busy a n ∷ [])
        (limbo (n * 4096 + busy_flag + a) busy_flag n ∷ [])
        ys
  released-Exchange = record {
    same_total = refl;
    below = λ i lt. refl;
    inside = λ j lt.
        inv.block_inv.words (total xs + j) ∙ word_at-middle xs (busy a n ∷ []) ys j lt ∙ refl;
    above = λ i le. refl;
    kept = λ q i out. (refl, refl, λ c h. h);
    new_owned = (omega (arith, found), tt);
    new_listed = λ d q i. inr (i, refl);
    new_once = tt;
    new_apart = λ q i. absurd (ground arith);
  }

  released-Inv : Inv v (xs ++ ((limbo (n * 4096 + busy_flag + a) busy_flag n ∷ []) ++ ys))
  released-Inv = record {
    lists = inv.lists;
    pool = inv.pool;
    list_inv = inv.list_inv;
    block_inv = BlockInv-exchange inv.block_inv released-Exchange;
  }

  runs : free_pages v (total xs) ≡ (
      let m = merge_after (merge_before v (total xs) n) (total xs + n) in
      (n, add_free_region m.pages m.base m.size))
  runs =
      let size : (n * 4096 + busy_flag + a) / 4096 ≡ n = omega (arith, found) in
      let flag : is_busy (n * 4096 + busy_flag + a) ≡ true = ground (arith, found) in
      let some_pages : (n == 0) ≡ false = ground (arith, found) in
      let pages : v.regions (total xs) / 4096 ≡ n = rw head size in
      free_pages-busy v (total xs) (rw head flag)
      ∙ (ap (freeing v (total xs)) pages ∙ rw some_pages refl)

  -- In a state that stands for free and busy blocks, freeing the first page of a busy block of n pages
  -- returns n, and the state then stands for
  -- the blocks in which this block and the free neighbours that it has form one free block.
  pub free_pages-freed :
      Settled xs
      → Settled ys
      → ((free_pages v (total xs)).0 ≡ n)
        × (item : ℕ) × Inv (free_pages v (total xs)).1 (freed xs n ys item)
  free_pages-freed left right =
      let m = merge_after (merge_before v (total xs) n) (total xs + n) in
      let j = both_steps v xs ys (n * 4096 + busy_flag + a) busy_flag n left right released-Inv in
      let after =
        Release.release-Inv m.pages (strip_last xs).0 (strip_first ys).0 j.first j.last
          (n + (strip_last xs).1 + (strip_first ys).1) j.inv in
      rw runs (
        refl,
        Release.item m.pages (strip_last xs).0 (strip_first ys).0 j.first j.last
            (n + (strip_last xs).1 + (strip_first ys).1) j.inv,
        rw (j.base_is, j.size_is) after,
      )
