-- ===== src/Vmm/Manager/Keeps.antt =====
-- The calls of the manager keep its blocks tidy.
use shmdos.Prelude.{
  ℕ, ◌%◌, ◌≤◌, ◌<◌, ◌≡◌, ◌≢◌, ap, ◌∙◌, sym, inl, inr, Option, none, some, List, [], ◌∷◌, ◌++◌,
  arith, ◌==◌, Bool-cases, Option-cases,
}
use shmdos.Vmm.Pages.{
  Pages, size_class, max_alloc_iterations, invalid_page_offset, alloc_pages, free_pages,
  mark_allocated,
}
use shmdos.Vmm.Blocks.{Block, busy, total, total-append}
use shmdos.Vmm.Invariant.{Inv}
use shmdos.Vmm.Alloc.Correct.{Outcome, taken, refused, leftover, alloc_pages-Outcome}
use shmdos.Vmm.Mark.{mark-Inv}
use shmdos.Vmm.Tidy.{IsTidy, taken-IsTidy, IsTidy-append, append-IsTidy}
use shmdos.Vmm.Good.{Good, free_pages-Good, alloc_pages-Good}
use shmdos.Vmm.Manager.{
  Paging, Manager, Commit, panicked, failed, committed, has_flag, page_count, lazy_flags,
  after_commit, commit_region, reserve_region, alloc, page_of, free_page, free, unmap_page,
  unmap_mmio,
}

-- The state after an allocation of n pages that gave the page `base`.
pub record Fresh (v : Pages) (pages n base : ℕ) : Type 0 where
  pub before : List Block
  pub after : List Block
  pub inv : Inv v (before ++ ((busy 0 n ∷ []) ++ after))
  pub tidy : IsTidy (before ++ ((busy 0 n ∷ []) ++ after))
  pub covers : total (before ++ ((busy 0 n ∷ []) ++ after)) ≡ pages
  pub base_is : base ≡ total before

pub fresh-Good : (v : Pages) (pages n base : ℕ) → Fresh v pages n base → Good v pages
fresh-Good v pages n base f = record {
  blocks = f.before ++ ((busy 0 n ∷ []) ++ f.after);
  inv = f.inv;
  tidy = f.tidy;
  covers = f.covers;
}

pub marked-Good :
    (v : Pages) (pages n base : ℕ) → Fresh v pages n base → Good (mark_allocated v base) pages
marked-Good v pages n base f =
    let (tb, ta, apart) = IsTidy-append f.before (busy 0 n ∷ f.after) f.tidy in
    rw f.base_is (record {
      blocks = f.before ++ ((busy 1 n ∷ []) ++ f.after);
      inv = mark-Inv v f.before f.after 0 n f.inv;
      tidy = append-IsTidy f.before (busy 1 n ∷ f.after) tb ta (ground (arith, apart));
      covers =
          total-append f.before (busy 1 n ∷ f.after)
          ∙ sym (total-append f.before (busy 0 n ∷ f.after))
          ∙ f.covers;
    })

pub alloc_pages-Fresh :
    (v : Pages) (pages n : ℕ)
    → 0 < n
    → v.counters (size_class n) ≤ max_alloc_iterations
    → Good v pages
    → (alloc_pages v n).0 ≢ invalid_page_offset
    → Fresh (alloc_pages v n).1 pages n (alloc_pages v n).0
alloc_pages-Fresh v pages n pos few g given =
    by_outcome (alloc_pages-Outcome v g.blocks n g.inv pos few)
  where
    by_outcome :
        Outcome v g.blocks n (alloc_pages v n)
        → Fresh (alloc_pages v n).1 pages n (alloc_pages v n).0
    by_outcome (refused e out) = absurd (given (ap (λ r. r.0) e))
    by_outcome (taken t) =
        let (tidy, same) =
          taken-IsTidy t.before t.after t.item t.size n t.rest_item t.fits (rw t.was at g.tidy) in
        record {
          before = t.before;
          after = leftover t.rest_item t.size n ++ t.after;
          inv = t.inv;
          tidy = tidy;
          covers = same ∙ sym (ap total t.was) ∙ g.covers;
          base_is = t.page_is;
        }

-- A result of a call: a panic, or a manager of tidy blocks for as many pages.
abbrev pub StaysGood : {S A : Type 0} → ℕ → Option (A × Manager S) → Type 0
StaysGood pages none = Unit {0}
StaysGood pages (some (a, u)) = Good u.pages pages

-- The manager after `allocPages`.
abbrev paged : {S : Type 0} → Manager S → ℕ → Manager S
paged v n = record v { pages = (alloc_pages v.pages n).1 }

module _ {S : Type 0} (paging : Paging S) (pages : ℕ) where
  after_commit-Good :
      (v : Manager S) (n base start : ℕ) (c : Commit S)
      → Fresh v.pages pages n base
      → StaysGood pages (after_commit paging v base start c)
  unfolding after_commit
  after_commit-Good v n base start panicked f = tt
  after_commit-Good v n base start (failed cur s) f =
      free_pages-Good v.pages pages base (fresh-Good v.pages pages n base f)
  after_commit-Good v n base start (committed s) f = marked-Good v.pages pages n base f

  reserve_region-Good :
      (v : Manager S) (n base size flags : ℕ)
      → Fresh v.pages pages n base
      → Good (reserve_region paging v base size flags).1.pages pages
  unfolding reserve_region
  reserve_region-Good v n base size flags f = elim (Option-cases (lazy_flags flags)) [
    | inl e ↦ rw (e, reserve_region) (fresh-Good v.pages pages n base f)
    | inr (x, e) ↦ rw (e, reserve_region) (marked-Good v.pages pages n base f)
  ]

  -- From a state of tidy blocks, with at most 32 regions in the class of the size, and unless it
  -- panics: whatever an allocation does, be it refused, reserved, committed now or later, or taken back after
  -- a failure, the blocks stay tidy and cover the same pages.
  pub alloc-Good :
      (v : Manager S) (size flags : ℕ)
      → v.pages.counters (size_class (page_count size)) ≤ max_alloc_iterations
      → Good v.pages pages
      → StaysGood pages (alloc paging v size flags)
  unfolding alloc commit_region
  alloc-Good v size flags few g = elim (Bool-cases (page_count size == 0)) [
    | inl empty ↦ rw empty g
    | inr more ↦
        elim (Bool-cases ((alloc_pages v.pages (page_count size)).0 == invalid_page_offset)) [
          | inl out ↦
              rw (more, out) (alloc_pages-Good v.pages pages (page_count size) (ground arith) few g)
          | inr given ↦
              let f =
                alloc_pages-Fresh v.pages pages (page_count size) (ground arith) few g
                  (ground arith) in
              elim (Bool-cases (has_flag flags 0x10000)) [
                | inl commit ↦
                    rw (more, given, commit)
                      (after_commit-Good (paged v (page_count size)) (page_count size) _ _ _ f)
                | inr later ↦
                    rw (more, given, later)
                      (reserve_region-Good (paged v (page_count size)) (page_count size) _ size
                        flags f)
              ]
        ]
  ]

  free_page-Good :
      (v : Manager S) (pointer page : ℕ)
      → Good v.pages pages
      → Good (free_page paging v pointer page).1.pages pages
  unfolding free_page
  free_page-Good v pointer page g =
      let after = free_pages-Good v.pages pages page g in
      elim (Bool-cases ((free_pages v.pages page).0 == 0)) [
        | inl nothing ↦ rw nothing after
        | inr some_pages ↦ elim (Bool-cases (v.pages.regions page % 2 == 1)) [
          | inl flagged ↦ rw (some_pages, flagged) after
          | inr plain ↦ rw (some_pages, plain) after
        ]
      ]

  -- Freeing any pointer leads from a state of tidy blocks to another, for as many pages.
  pub free-Good :
      (v : Manager S) (pointer : ℕ)
      → Good v.pages pages
      → Good (free paging v pointer).1.pages pages
  unfolding free
  free-Good v pointer g = elim (Option-cases (page_of paging v pointer)) [
    | inl e ↦ rw (e, free) g
    | inr (page, e) ↦ rw (e, free) (free_page-Good v pointer page g)
  ]

  -- Unmapping any pointer leads from a state of tidy blocks to another, for as many pages.
  pub unmap_mmio-Good :
      (v : Manager S) (pointer : ℕ)
      → Good v.pages pages
      → Good (unmap_mmio paging v pointer).1.pages pages
  unfolding unmap_mmio unmap_page
  unmap_mmio-Good v pointer g = elim (Option-cases (page_of paging v pointer)) [
    | inl e ↦ rw (e, unmap_mmio) g
    | inr (page, e) ↦
        let after = free_pages-Good v.pages pages page g in
        elim (Bool-cases ((free_pages v.pages page).0 == 0)) [
          | inl nothing ↦ rw (e, unmap_mmio, nothing) after
          | inr some_pages ↦ rw (e, unmap_mmio, some_pages) after
        ]
  ]
