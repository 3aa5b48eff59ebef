-- ===== src/Paging/Returns.antt =====
-- A walk that may make tables does not panic while the RAM allocator has three pages for each page.
use shmdos.Prelude.{
  ℕ, zero, suc, ◌+◌, ◌-◌, ◌*◌, ◌/◌, ◌%◌, ◌^◌, ◌≤◌, ◌<◌, ◌≡◌, ◌≢◌, refl, inl, inr, ◌==◌, false,
  Bool-cases, Option, some, List, [], ◌∷◌, length, arith,
}
use shmdos.Paging.Walk.{
  Walk, frame_of, access_to_child_dir, new_child, touch, walk_page, each_page, process_pages, span,
}
use shmdos.Paging.Refine.{PageMap, Shows}
use shmdos.Paging.Owned.{Owner}
use shmdos.Paging.Range.{process_pages-each_page}

module _ {K : Type 0} (callback : K → ℕ → K × ℕ) (flags : ℕ) (some_flag : flags ≢ 0) where
  -- The result, and that at most so many pages of memory are taken.
  abbrev Returns : (need : ℕ) → Walk K → Option (Walk K) → Type 0
  Returns need w r = (v : Walk K) × (r ≡ some v) × (length w.frames ≤ length v.frames + need)

  new_child-Returns :
      (w : Walk K) (d i : ℕ) (fs : List ℕ)
      → 1 ≤ length fs
      → (c : ℕ) × (u : Walk K) × (new_child w d i flags fs ≡ some (c, u))
        × (length fs ≤ length u.frames + 1)
  unfolding new_child
  new_child-Returns w d i [] le = absurd (omega arith)
  new_child-Returns w d i (f ∷ fs) le = (_, _, refl, omega arith)

  access-Returns :
      (w : Walk K) (d i : ℕ)
      → 1 ≤ length w.frames
      → (c : ℕ) × (u : Walk K) × (access_to_child_dir w d i flags ≡ some (c, u))
        × (length w.frames ≤ length u.frames + 1)
  unfolding access_to_child_dir
  access-Returns w d i le = elim (Bool-cases (w.table d i == 0)) [
    | inr there ↦ (frame_of (w.table d i), w, rw there refl, omega arith)
    | inl gone ↦
        let ok_flags : (flags == 0) ≡ false = ground (arith, some_flag) in
        let (c, u, e, more) = new_child-Returns w d i w.frames le in
        (c, u, rw (gone, ok_flags) e, more)
  ]

  walk_page-Returns :
      (b d p : ℕ) (w : Walk K)
      → b ≤ length w.frames
      → Returns b w (walk_page callback flags b d p w)
  unfolding walk_page touch
  walk_page-Returns zero d p w le = (touch callback d (p % 512) w, refl, omega arith)
  walk_page-Returns (suc b) d p w le =
      let (c, u, e, more) = access-Returns w d (p / span (suc b) % 512) (omega arith) in
      let (v, e', rest) = walk_page-Returns b c p u (omega arith) in (v, rw e e', omega arith)

  each_page-Returns :
      (n d p : ℕ) (w : Walk K)
      → 3 * n ≤ length w.frames
      → Returns (3 * n) w (each_page callback flags 3 n d p w)
  unfolding each_page
  each_page-Returns zero d p w le = (w, refl, omega arith)
  each_page-Returns (suc n) d p w le =
      let (u, e, more) = walk_page-Returns 3 d p w (omega arith) in
      let (v, e', rest) = each_page-Returns n d (p + 1) u (omega arith) in (v, rw e e', omega arith)

  -- For flags other than 0 and a range of at least one byte that does not leave the 48 bits of addresses,
  -- in a state whose tables show a map, and while the RAM allocator holds three free pages for each page
  -- of the range: the walk over the range does not panic, and takes no more than those.
  pub process_pages-Returns :
      (small : flags < 4096) (root base size : ℕ) (o : Owner) (w : Walk K) (a : PageMap K)
      → Shows o root w a
      → 0 < size
      → base % 2 ^ 48 + size ≤ 2 ^ 48
      → 3 * ((base % 2 ^ 48 + size + 4095) / 4096 - base % 2 ^ 48 / 4096) ≤ length w.frames
      → (v : Walk K) × (process_pages callback flags root base size w ≡ some v)
        × (length w.frames
            ≤ length v.frames + 3 * ((base % 2 ^ 48 + size + 4095) / 4096 - base % 2 ^ 48 / 4096))
  process_pages-Returns small root base size o w a h some_size le enough =
      rw
        (process_pages-each_page callback flags small root base size o w h.owned h.rank some_size
          le)
        (each_page-Returns _ root (base % 2 ^ 48 / 4096) w enough)
