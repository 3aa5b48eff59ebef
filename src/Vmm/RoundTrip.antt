-- ===== src/Vmm/RoundTrip.antt =====
-- `freePages` undoes `allocPages` of kernel/VirtualMemoryManager.cpp.
use shmdos.Prelude.{
  ℕ, ◌+◌, ◌-◌, ◌≤◌, ◌<◌, ◌≡◌, ◌≢◌, refl, ap, ◌∙◌, sym, inl, inr, Bool, true, false, List, [], ◌∷◌,
  ◌++◌, arith, ◌==◌, Bool-cases, ==_iff,
}
use shmdos.Vmm.Pages.{
  Pages, size_class, max_alloc_iterations, invalid_page_offset, alloc_pages, free_pages,
}
use shmdos.Vmm.Blocks.{Block, free, busy, limbo, total}
use shmdos.Vmm.Invariant.{Inv}
use shmdos.Vmm.Alloc.Correct.{Taken, Outcome, taken, refused, leftover, alloc_pages-Outcome}
use shmdos.Vmm.Free.Spec.{
  strip_last, strip_first, freed, LastOf, none_left, free_left, busy_left, last_of,
}
use shmdos.Vmm.Free.Correct.{free_pages-freed}
use shmdos.Vmm.Tidy.{
  IsTidy, IsTidy-Settled, IsTidy-append, taken-IsTidy, ends_free, starts_free, ends_free-last,
}

-- The blocks as a user of the allocator knows them: kind and size, without the items.
abbrev pub Extent : Type 0
Extent = Bool × ℕ

abbrev pub extent : Block → Extent
extent (free p n) = (true, n)
extent (busy a n) = (false, n)
extent (limbo w z n) = (false, n)

abbrev pub extents : List Block → List Extent
extents [] = []
extents (b ∷ bs) = extent b ∷ extents bs

extents-append : (xs ys : List Block) → extents (xs ++ ys) ≡ extents xs ++ extents ys
extents-append [] ys = refl
extents-append (b ∷ xs) ys = ap (λ l. extent b ∷ l) (extents-append xs ys)

strip_last-kept : (xs : List Block) → IsTidy xs → ends_free xs ≡ false → strip_last xs ≡ (xs, 0)
strip_last-kept xs t e = by_last (last_of xs (IsTidy-Settled xs t))
  where
    by_last : LastOf xs → strip_last xs ≡ (xs, 0)
    by_last (none_left _ s) = s
    by_last (free_left us p n same _) =
        absurd (ground (arith, sym (ends_free-last us (free p n)) ∙ sym (ap ends_free same) ∙ e))
    by_last (busy_left _ _ _ _ s) = s

-- What follows a taken block rejoins it.
strip_first-leftover :
    (ys : List Block) (item k n : ℕ)
    → n ≤ k
    → IsTidy ys
    → starts_free ys ≡ false
    → strip_first (leftover item k n ++ ys) ≡ (ys, k - n)
unfolding strip_first
strip_first-leftover ys item k n le t e = elim (Bool-cases (k == n)) [
  | inr part ↦ rw part refl
  | inl all ↦
      let none_over : k - n ≡ 0 = omega (arith, (==_iff k n).0 all) in
      rw (all, none_over) (whole ys t e)
]
  where
    whole : (zs : List Block) → IsTidy zs → starts_free zs ≡ false → strip_first zs ≡ (zs, 0)
    whole [] t' e' = refl
    whole (free p m ∷ zs) t' e' = absurd (ground (arith, e'))
    whole (busy a m ∷ zs) t' e' = refl
    whole (limbo w z m ∷ zs) t' e' = absurd t'

-- Freeing a taken block, with the allocation flag or without, brings the blocks back.
pub free_pages-Taken :
    {bs : List Block} {n : ℕ} {r : ℕ × Pages} (v : Pages) (a : ℕ) (t : Taken bs n r)
    → IsTidy bs
    → Inv v (t.before ++ ((busy a n ∷ leftover t.rest_item t.size n) ++ t.after))
    → ((free_pages v (total t.before)).0 ≡ n)
      × (cs : List Block) × Inv (free_pages v (total t.before)).1 cs
      × (extents cs ≡ extents bs)
free_pages-Taken {n = n} v a t tidy inv =
    let was = rw t.was at tidy in
    let (tx, ty, apart) = IsTidy-append t.before (free t.item t.size ∷ t.after) was in
    let (all, covers) = taken-IsTidy t.before t.after t.item t.size n t.rest_item t.fits was in
    let (sx, sy, met) =
      IsTidy-append t.before (busy 0 n ∷ (leftover t.rest_item t.size n ++ t.after)) all in
    let done =
      free_pages-freed v t.before (leftover t.rest_item t.size n ++ t.after) a n inv
        (IsTidy-Settled t.before sx)
        (IsTidy-Settled (leftover t.rest_item t.size n ++ t.after) sy) in
    let before_kept = strip_last-kept t.before tx (ground (arith, apart)) in
    let after_joined = strip_first-leftover t.after t.rest_item t.size n t.fits ty.1 ty.0 in
    let size : n + 0 + (t.size - n) ≡ t.size = omega (arith, t.fits) in
    let same : freed t.before n (leftover t.rest_item t.size n ++ t.after) done.1
        ≡ t.before ++ (free done.1 t.size ∷ t.after) =
      rw (before_kept, after_joined, size) refl in
    (
      done.0,
      t.before ++ (free done.1 t.size ∷ t.after),
      rw same at done.2,
      extents-append t.before (free done.1 t.size ∷ t.after)
          ∙ sym (extents-append t.before (free t.item t.size ∷ t.after))
          ∙ sym (ap extents t.was),
    )

module _ (v : Pages) (bs : List Block) (n : ℕ) (inv : Inv v bs) (tidy : IsTidy bs) (pos : 0 < n)
    (few : v.counters (size_class n) ≤ max_alloc_iterations)
    (given : (alloc_pages v n).0 ≢ invalid_page_offset) where
  -- In a state that stands for blocks of which no two free ones are neighbours, and with at most 32
  -- regions in the class of n > 0, freeing what an allocation of n pages gave frees n pages, and the blocks are then the ones before
  -- the allocation, each of the same kind and size in the same place.
  pub free_pages-alloc_pages :
      ((free_pages (alloc_pages v n).1 (alloc_pages v n).0).0 ≡ n)
      × (cs : List Block) × Inv (free_pages (alloc_pages v n).1 (alloc_pages v n).0).1 cs
      × (extents cs ≡ extents bs)
  free_pages-alloc_pages = by_outcome (alloc_pages-Outcome v bs n inv pos few)
    where
      by_outcome :
          Outcome v bs n (alloc_pages v n)
          → ((free_pages (alloc_pages v n).1 (alloc_pages v n).0).0 ≡ n)
            × (cs : List Block) × Inv (free_pages (alloc_pages v n).1 (alloc_pages v n).0).1 cs
            × (extents cs ≡ extents bs)
      by_outcome (refused e out) = absurd (given (ap (λ r. r.0) e))
      by_outcome (taken t) = rw t.page_is (free_pages-Taken (alloc_pages v n).1 0 t tidy t.inv)
