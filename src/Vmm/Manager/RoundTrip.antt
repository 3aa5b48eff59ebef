-- ===== src/Vmm/Manager/RoundTrip.antt =====
-- What a pointer from `alloc` of kernel/VirtualMemoryManager.cpp is good for, and what `free` makes
-- of it.
use shmdos.Prelude.{
  ℕ, ◌+◌, ◌-◌, ◌*◌, ◌/◌, ◌%◌, ◌≤◌, ◌<◌, ◌≡◌, ◌≢◌, refl, ap, ◌∙◌, sym, subst, inl, inr, true, false,
  Option, none, some, List, ◌∷◌, ◌++◌, arith, ltb, leb, ◌==◌, Bool-cases, Option-cases,
}
use shmdos.Vmm.Pages.{
  Pages, word_mod, size_class, max_alloc_iterations, invalid_page_offset, alloc_pages, free_pages,
  mark_allocated,
}
use shmdos.Vmm.Blocks.{Block, free, busy, total, total-append}
use shmdos.Vmm.Invariant.{Inv}
use shmdos.Vmm.Alloc.Correct.{Taken, Outcome, taken, refused, leftover, alloc_pages-Outcome}
use shmdos.Vmm.Mark.{mark-Inv}
use shmdos.Vmm.Tidy.{IsTidy}
use shmdos.Vmm.RoundTrip.{extents, free_pages-Taken}
use shmdos.Vmm.Good.{Good}
use shmdos.Vmm.Manager as M
use shmdos.Vmm.Manager.{
  Paging, Manager, MemoryType, Commit, panicked, failed, committed, has_flag, page_count,
  commit_flags, lazy_flags, commit_pages, after_commit, commit_region, reserve_region, alloc,
  page_of, free_page,
}

-- The pointer is at a page of the range with room for n pages behind it; freeing it succeeds and
-- leaves blocks of the same kinds and sizes as `bs`.
pub record Usable {S : Type 0} (paging : Paging S) (u : Manager S) (pages n : ℕ) (bs : List Block)
    (pointer : ℕ) : Type 0 where
  pub from_base : u.virtual_base ≤ pointer
  pub page_start : (pointer - u.virtual_base) % 4096 ≡ 0
  pub has_room : pointer + 4096 * n ≤ u.virtual_base + 4096 * pages
  pub frees : (M.free paging u pointer).0 ≡ true
  pub left : List Block
  pub left_inv : Inv (M.free paging u pointer).1.pages left
  pub as_before : extents left ≡ extents bs

free_page-parts :
    {S : Type 0} (paging : Paging S) (u : Manager S) (pointer page : ℕ)
    → ((free_pages u.pages page).0 == 0) ≡ false
    → ((free_page paging u pointer page).0 ≡ true)
      × ((free_page paging u pointer page).1.pages ≡ (free_pages u.pages page).1)
unfolding free_page
free_page-parts paging u pointer page more = elim (Bool-cases (u.pages.regions page % 2 == 1)) [
  | inl flagged ↦ rw (more, flagged) (refl, refl)
  | inr plain ↦ rw (more, plain) (refl, refl)
]

module _ {S : Type 0} (paging : Paging S) (pages n : ℕ) (pos : 0 < n) (bs : List Block)
    (tidy : IsTidy bs) (covers : total bs ≡ pages) {r : ℕ × Pages} (t : Taken bs n r) where
  inside : total t.before + n ≤ pages
  inside =
      omega (
        arith,
        covers,
        ap total t.was,
        total-append t.before (free t.item t.size ∷ t.after),
        t.fits,
      )

  found :
      (u : Manager S) (page : ℕ)
      → page < u.virtual_pages
      → page_of paging u (u.virtual_base + page * 4096) ≡ some page
  unfolding page_of
  found u page lt =
      let at : (u.virtual_base + page * 4096 - u.virtual_base) / 4096 ≡ page = omega arith in
      let low : ltb (u.virtual_base + page * 4096) u.virtual_base ≡ false = ground arith in
      let high : leb u.virtual_pages page ≡ false = ground arith in rw (at, low, high) refl

  usable :
      (u : Manager S) (a : ℕ)
      → u.virtual_pages ≡ pages
      → u.virtual_base + 4096 * pages ≤ word_mod
      → Inv u.pages (t.before ++ ((busy a n ∷ leftover t.rest_item t.size n) ++ t.after))
      → Usable paging u pages n bs ((u.virtual_base + r.0 * 4096) % word_mod)
  unfolding M.free
  usable u a count range inv =
      let done = free_pages-Taken u.pages a t tidy inv in
      let start : (u.virtual_base + r.0 * 4096) % word_mod
          ≡ u.virtual_base + total t.before * 4096 =
        ap (λ b. (u.virtual_base + b * 4096) % word_mod) t.page_is
        ∙ omega (arith, inside, range, pos) in
      let page = found u (total t.before) (rw count (omega (arith, inside, pos))) in
      let parts =
        free_page-parts paging u (u.virtual_base + total t.before * 4096) (total t.before)
          (ground (arith, done.0, pos)) in
      rw start (record {
        from_base = omega arith;
        page_start = omega arith;
        has_room = omega (arith, inside);
        frees = rw (page, M.free) parts.0;
        left = done.1;
        left_inv = rw (page, M.free, parts.1) done.2;
        as_before = done.3;
      })

-- The result of `alloc`, where it gave a pointer.
abbrev WhenGiven : {S : Type 0} → (Manager S → ℕ → Type 0) → Option (ℕ × Manager S) → Type 0
WhenGiven P none = Unit {0}
WhenGiven P (some (p, u)) = p ≢ 0 → P u p

module _ {S : Type 0} (paging : Paging S) (v : Manager S) (g : Good v.pages v.virtual_pages)
    (range : v.virtual_base + 4096 * v.virtual_pages ≤ word_mod) (size flags : ℕ)
    (few : v.pages.counters (size_class (page_count size)) ≤ max_alloc_iterations) where
  abbrev n : ℕ
  n = page_count size

  abbrev Given : Manager S → ℕ → Type 0
  Given u p = Usable paging u v.virtual_pages n g.blocks p

  abbrev start : ℕ
  start = (v.virtual_base + (alloc_pages v.pages n).0 * 4096) % word_mod

  -- With the pages taken, the pointer is usable whatever memory there is behind it, and with the
  -- allocation flag too.
  plain :
      0 < n
      → Taken g.blocks n (alloc_pages v.pages n)
      → (s : S) → Given (record v { pages = (alloc_pages v.pages n).1; memory = s }) start
  plain pos t s =
      usable paging v.virtual_pages n pos g.blocks g.tidy g.covers t
        (record v { pages = (alloc_pages v.pages n).1; memory = s }) 0 refl range t.inv

  marked :
      0 < n
      → Taken g.blocks n (alloc_pages v.pages n)
      → (s : S)
      → Given
          (record v {
            pages = mark_allocated (alloc_pages v.pages n).1 (alloc_pages v.pages n).0;
            memory = s;
          })
          start
  marked pos t s =
      usable paging v.virtual_pages n pos g.blocks g.tidy g.covers t
        (record v {
          pages = mark_allocated (alloc_pages v.pages n).1 (alloc_pages v.pages n).0;
          memory = s;
        })
        1 refl range
        (subst
          (λ b.
            Inv (mark_allocated (alloc_pages v.pages n).1 b)
              (t.before ++ ((busy 1 n ∷ leftover t.rest_item t.size n) ++ t.after)))
          (sym t.page_is)
          (mark-Inv (alloc_pages v.pages n).1 t.before (leftover t.rest_item t.size n ++ t.after) 0
            n t.inv))

  committed-Given :
      0 < n
      → Taken g.blocks n (alloc_pages v.pages n)
      → (c : Commit S)
      → WhenGiven Given (
          after_commit paging
            (record v { pages = (alloc_pages v.pages n).1 })
            (alloc_pages v.pages n).0
            start
            c)
  unfolding after_commit
  committed-Given pos t panicked = tt
  committed-Given pos t (failed cur s) = λ ne. absurd (ne refl)
  committed-Given pos t (committed s) = λ ne. marked pos t s

  reserved-Given :
      0 < n
      → Taken g.blocks n (alloc_pages v.pages n)
      → WhenGiven Given (
          some (
            reserve_region paging
              (record v { pages = (alloc_pages v.pages n).1 })
              (alloc_pages v.pages n).0
              size
              flags))
  unfolding reserve_region
  reserved-Given pos t = elim (Option-cases (lazy_flags flags)) [
    | inl e ↦ λ ne. subst (λ r. Given r.1 r.0) (sym (not_backed e)) (plain pos t v.memory)
    | inr (x, e) ↦ λ ne. subst (λ r. Given r.1 r.0) (sym (lazy x e)) (marked pos t _)
  ]
    where
      not_backed :
          lazy_flags flags ≡ none
          → reserve_region paging
              (record v { pages = (alloc_pages v.pages n).1 })
              (alloc_pages v.pages n).0
              size
              flags
            ≡ (start, record v { pages = (alloc_pages v.pages n).1 })
      not_backed e = rw (e, reserve_region) refl

      lazy :
          (x : ℕ)
          → lazy_flags flags ≡ some x
          → reserve_region paging
              (record v { pages = (alloc_pages v.pages n).1 })
              (alloc_pages v.pages n).0
              size
              flags
            ≡ (
              start,
              record v {
                pages = mark_allocated (alloc_pages v.pages n).1 (alloc_pages v.pages n).0;
                memory = paging.set_pages_flags start size 4095 x v.memory;
              },
            )
      lazy x e = rw (e, reserve_region) refl

  alloc-WhenGiven : WhenGiven Given (alloc paging v size flags)
  unfolding alloc commit_region
  alloc-WhenGiven = elim (Bool-cases (n == 0)) [
    | inl empty ↦ rw empty (λ ne. absurd (ne refl))
    | inr more ↦ elim (Bool-cases ((alloc_pages v.pages n).0 == invalid_page_offset)) [
      | inl out ↦ rw (more, out) (λ ne. absurd (ne refl))
      | inr given ↦
          let t = was_taken (ground (arith, more)) (ground (arith, given)) in
          elim (Bool-cases (has_flag flags 0x10000)) [
            | inl commit ↦ rw (more, given, commit) (committed-Given (ground (arith, more)) t _)
            | inr later ↦ rw (more, given, later) (reserved-Given (ground (arith, more)) t)
          ]
    ]
  ]
    where
      was_taken :
          0 < n
          → (alloc_pages v.pages n).0 ≢ invalid_page_offset
          → Taken g.blocks n (alloc_pages v.pages n)
      was_taken pos ne = by_outcome (alloc_pages-Outcome v.pages g.blocks n g.inv pos few)
        where
          by_outcome :
              Outcome v.pages g.blocks n (alloc_pages v.pages n)
              → Taken g.blocks n (alloc_pages v.pages n)
          by_outcome (refused e out) = absurd (ne (ap (λ r. r.0) e))
          by_outcome (taken t) = t

  -- In a state of tidy blocks for all pages of a range that does not wrap around, with at most 32
  -- regions in the class of the size, a pointer other than null that an allocation of `size` bytes
  -- gives, reserved, committed now or later, is at the
  -- start of a page of the range and has room for the bytes, rounded up to pages. Freeing it succeeds
  -- and leaves blocks of the same kinds and sizes in the same places as before the allocation.
  pub free-alloc :
      (p : ℕ) (u : Manager S)
      → alloc paging v size flags ≡ some (p, u)
      → p ≢ 0
      → Usable paging u v.virtual_pages (page_count size) g.blocks p
  free-alloc p u e = subst (WhenGiven Given) e alloc-WhenGiven
