-- ===== src/Paging/Release.antt =====
-- What `freeRamPages` of kernel/paging.cpp gives back, and what it leaves in the tables.
use shmdos.Prelude.{
  ℕ, zero, suc, ◌+◌, ◌%◌, ◌^◌, ◌≤◌, ◌<◌, ◌≡◌, refl, ap, ◌∙◌, ◌⊎◌, inl, inr, ◌==◌, if◌then◌else◌,
  Bool, true, false, not, ◌&&◌, Bool-cases, none, some, List, [], ◌∷◌, update, arith,
}
use shmdos.Paging.Walk.{Walk, frame_of, is_present}
use shmdos.Paging.Owned.{Owner}
use shmdos.Paging.Lookup.{lookup}
use shmdos.Paging.Refine.{PageMap, Shows, apply_page, apply_range, process_pages-Refines}
use shmdos.Paging.Calls.{Space, begin, free_entry, free_ram_pages}
use shmdos.Paging.Ranges.{first_page, page_count, page_map, apply_range-outside}

-- The pages of memory behind the present entries of a range, the last one first, on top of a list.
abbrev pub mapped : (count page : ℕ) → (ℕ → ℕ) → List ℕ → List ℕ
mapped zero p m l = l
mapped (suc n) p m l =
    mapped n (p + 1) m
      (if is_present (m p) && not (frame_of (m p) == 0) then frame_of (m p) ∷ l else l)

mapped-update :
    (n p q v : ℕ) (m : ℕ → ℕ) (l : List ℕ) → q < p → mapped n p (update m q v) l ≡ mapped n p m l
mapped-update zero p q v m l lt = refl
mapped-update (suc n) p q v m l lt =
    let other : (p == q) ≡ false = ground (arith, lt) in
    rw other (mapped-update n (p + 1) q v m _ (omega arith))

module _ (virtual_allocated : Bool) where
  free_entry-kept :
      (l : List ℕ) (e : ℕ)
      → (free_entry virtual_allocated l e).0
        ≡ (if is_present e && not (frame_of e == 0) then frame_of e ∷ l else l)
  unfolding free_entry
  free_entry-kept l e = ground arith

  free_entry-absent :
      (l : List ℕ) (e : ℕ)
      → is_present (free_entry virtual_allocated l e).1 ≡ true
      → frame_of (free_entry virtual_allocated l e).1 ≡ 0
  unfolding free_entry is_present frame_of
  free_entry-absent l e h = ground arith

  apply_range-kept :
      (n p : ℕ) (a : PageMap (List ℕ))
      → (apply_range (free_entry virtual_allocated) n p a).kept ≡ mapped n p a.entry a.kept
  unfolding apply_range
  apply_range-kept zero p a = refl
  apply_range-kept (suc n) p a =
      apply_range-kept n (p + 1) (apply_page (free_entry virtual_allocated) p a)
      ∙ mapped-update n (p + 1) p _ a.entry _ (omega arith)
      ∙ ap (mapped n (p + 1) a.entry) (free_entry-kept a.kept (a.entry p))

  apply_range-absent :
      (n p q : ℕ) (a : PageMap (List ℕ))
      → p ≤ q
      → q < p + n
      → is_present ((apply_range (free_entry virtual_allocated) n p a).entry q) ≡ true
      → frame_of ((apply_range (free_entry virtual_allocated) n p a).entry q) ≡ 0
  unfolding apply_range
  apply_range-absent zero p q a le lt = absurd (omega arith)
  apply_range-absent (suc n) p q a le lt = elim (Bool-cases (q == p)) [
    | inl same ↦
        let out =
          apply_range-outside (free_entry virtual_allocated) n (p + 1) q
            (apply_page (free_entry virtual_allocated) p a) (inl (ground (arith, same))) in
        rw (out, same) (free_entry-absent a.kept (a.entry p))
    | inr other ↦
        apply_range-absent n (p + 1) q (apply_page (free_entry virtual_allocated) p a)
          (ground (arith, other)) (omega arith)
  ]

  -- For a range of at least one byte that does not leave the 48 bits of addresses, and tables that show a
  -- map m: `freeRamPages` panics, or it gives back the pages of memory behind the present entries of the
  -- range, each entry once; then no page in the range has one any more, and every page outside has the
  -- entry that it had.
  pub free_ram_pages-mapped :
      (root base size : ℕ) (o : Owner) (s : Space) (m : ℕ → ℕ)
      → Shows {K = List ℕ} o root (begin s []) (page_map m [])
      → 0 < size
      → base % 2 ^ 48 + size ≤ 2 ^ 48
      → (free_ram_pages root base size virtual_allocated s ≡ none)
        ⊎ ((v : Walk (List ℕ)) × (free_ram_pages root base size virtual_allocated s ≡ some v)
            × (v.kept ≡ mapped (page_count base size) (first_page base) m [])
            × ((i : ℕ)
                → i < page_count base size
                → is_present (lookup 3 root (first_page base + i) v) ≡ true
                → frame_of (lookup 3 root (first_page base + i) v) ≡ 0)
            × ((q : ℕ)
                → q < 2 ^ 36
                → (q < first_page base) ⊎ (first_page base + page_count base size ≤ q)
                → lookup 3 root q v ≡ m q))
  unfolding free_ram_pages
  free_ram_pages-mapped root base size o s m h some_size le =
      elim (process_pages-Refines (free_entry virtual_allocated) 0 (omega arith) root base size o
        (begin s []) (page_map m []) h some_size le) [
          | inl e ↦ inl e
          | inr (v, o', e, shows) ↦ inr (
            v,
            e,
            shows.kept ∙ apply_range-kept (page_count base size) (first_page base) (page_map m []),
            λ i lt. rw (shows.entries (first_page base + i) (omega arith)) (
                apply_range-absent (page_count base size) (first_page base) (first_page base + i)
                  (page_map m []) (omega arith) (omega arith)),
            λ q lt out.
                shows.entries q lt
                ∙ apply_range-outside (free_entry virtual_allocated) (page_count base size)
                    (first_page base) q (page_map m []) out,
          )
        ]
