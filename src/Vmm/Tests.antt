-- ===== src/Vmm/Tests.antt =====
-- The page allocator on eight pages.
use shmdos.Prelude.{
  zero, suc, Option, none, ℕ, ◌+◌, ◌*◌, ◌≤◌, ◌≡◌, refl, true, some, List, [], ◌∷◌, arith,
}
use shmdos.Vmm.Pages.{
  Pages, size_class, max_alloc_iterations, split_region, alloc_pages, free_pages, set_busy_region,
  delete_free_region, unlink_item, add_free_region, take_item, link_item, scan_class, scan,
  alloc_elsewhere, larger_class, first_fit, whole_region,
}
use shmdos.Vmm.Blocks.{Block, busy}
use shmdos.Vmm.Blocks.{free as free_block}
use shmdos.Vmm.Invariant.{Inv}
use shmdos.Vmm.Init.{
  Layout, first_pages, first-Inv, first-Good, blank, reserve_array, reserve_arrays,
}
use shmdos.Vmm.Alloc.Split
use shmdos.Vmm.Alloc.Correct.{Outcome, alloc_pages-Outcome}
use shmdos.Vmm.Free.Spec.{freed}
use shmdos.Vmm.Free.Correct.{free_pages-freed}
use shmdos.Vmm.Free.Ignored.{free_pages-ignored}
use shmdos.Vmm.Good.{Good}
use shmdos.Vmm.RoundTrip.{extents, free_pages-alloc_pages}
use shmdos.Vmm.Manager.{Paging, Manager, alloc, free, reserve_region, lazy_flags}
use shmdos.Vmm.Manager.Keeps.{StaysGood, alloc-Good, free-Good}
use shmdos.Vmm.Manager.RoundTrip.{Usable, free-alloc}
use shmdos.Prelude.{last_one_bit}

abbrev eight_pages : Layout
eight_pages = record {
  regions_start = 4096;
  items_start = 8192;
  virtual_base = 12288;
  virtual_pages = 8;
  table_size = 4;
}

abbrev fresh : Pages
fresh = first_pages eight_pages

abbrev fresh_blocks : List Block
fresh_blocks = free_block 8192 8 ∷ []

fresh-Inv : Inv (first_pages eight_pages) (free_block 8192 8 ∷ [])
fresh-Inv = first-Inv eight_pages (omega arith) (omega arith) (omega arith, omega arith)

fresh-Good : Good (first_pages eight_pages) 8
fresh-Good = first-Good eight_pages (omega arith) (omega arith) (omega arith, omega arith)

fresh_few : (first_pages eight_pages).counters (size_class 3) ≤ max_alloc_iterations
unfolding first_pages blank add_free_region take_item link_item last_one_bit
fresh_few = omega arith

pages_given : (alloc_pages (first_pages eight_pages) 3).0 ≡ 0
unfolding first_pages blank add_free_region take_item link_item last_one_bit alloc_pages scan_class
    scan alloc_elsewhere larger_class first_fit split_region whole_region set_busy_region
    delete_free_region unlink_item
pages_given = refl

alloc_pages-Outcome_example :
    Outcome
      (first_pages eight_pages)
      (free_block 8192 8 ∷ [])
      3
      (alloc_pages (first_pages eight_pages) 3)
alloc_pages-Outcome_example =
    alloc_pages-Outcome (first_pages eight_pages) (free_block 8192 8 ∷ []) 3 fresh-Inv (omega arith)
      fresh_few

free_pages-alloc_pages_example :
    ((free_pages
        (alloc_pages (first_pages eight_pages) 3).1
        (alloc_pages (first_pages eight_pages) 3).0).0
      ≡ 3)
    × (cs : List Block) × Inv
        (free_pages
          (alloc_pages (first_pages eight_pages) 3).1
          (alloc_pages (first_pages eight_pages) 3).0).1
        cs
    × (extents cs ≡ (true, 8) ∷ [])
free_pages-alloc_pages_example =
    free_pages-alloc_pages (first_pages eight_pages) (free_block 8192 8 ∷ []) 3 fresh-Inv (refl, tt)
      (omega arith) fresh_few (omega (arith, pages_given))

-- Three pages are busy, the other five free.
abbrev three_busy : Pages
three_busy = (split_region (first_pages eight_pages) (size_class 8) 8192 3 5).1

three_busy-Inv :
    Inv
      (split_region (first_pages eight_pages) (size_class 8) 8192 3 5).1
      (busy 0 3 ∷ free_block 8192 5 ∷ [])
unfolding Split.item Split.busy_part first_pages blank add_free_region take_item link_item
    last_one_bit set_busy_region delete_free_region unlink_item
three_busy-Inv =
    (Split.split-Inv (first_pages eight_pages) [] [] 8192 8 fresh-Inv 3 (omega arith)
      (omega arith)).1

free_pages-freed_example :
    ((free_pages (split_region (first_pages eight_pages) (size_class 8) 8192 3 5).1 0).0 ≡ 3)
    × (item : ℕ) × Inv
        (free_pages (split_region (first_pages eight_pages) (size_class 8) 8192 3 5).1 0).1
        (freed [] 3 (free_block 8192 5 ∷ []) item)
free_pages-freed_example =
    free_pages-freed (split_region (first_pages eight_pages) (size_class 8) 8192 3 5).1 []
      (free_block 8192 5 ∷ []) 0 3 three_busy-Inv tt tt

-- A page inside the busy block.
free_pages-ignored_example :
    free_pages (split_region (first_pages eight_pages) (size_class 8) 8192 3 5).1 2
    ≡ (0, (split_region (first_pages eight_pages) (size_class 8) 8192 3 5).1)
free_pages-ignored_example =
    free_pages-ignored (split_region (first_pages eight_pages) (size_class 8) 8192 3 5).1
      (busy 0 3 ∷ free_block 8192 5 ∷ []) 2 three_busy-Inv tt refl

-- Page tables that have memory for so many calls.
abbrev set_some : (virtual_base size mask flags : ℕ) → ℕ → Option ℕ
set_some virtual_base size mask flags zero = none
set_some virtual_base size mask flags (suc n) = some n

-- With memory for both calls the constructor ends.
init_run : (l : Layout) → reserve_arrays set_some l 2 ≡ some 0
unfolding reserve_arrays reserve_array
init_run l = refl

-- Page tables that count the pages that were handed out.
abbrev counting : Paging ℕ
counting = record {
  map_page = λ virtual_base phys flags s. s;
  map_pages = λ virtual_base phys size flags s. s;
  set_pages_flags = λ virtual_base size mask flags s. s;
  free_ram_pages = λ virtual_base size realloc s. s;
  alloc_page = λ s. some (4096 * s, s + 1);
}

abbrev manager : Manager ℕ
manager = record {
  pages = first_pages eight_pages;
  virtual_base = 12288;
  virtual_pages = 8;
  memory = 1;
}

alloc-Good_example : StaysGood 8 (alloc counting manager 10000 0x10004)
alloc-Good_example = alloc-Good counting 8 manager 10000 0x10004 fresh_few fresh-Good

free-Good_example : Good (free counting manager 12288).1.pages 8
free-Good_example = free-Good counting 8 manager 12288 fresh-Good

reserved :
    alloc counting manager 10000 0
    ≡ some (
      12288,
      record {
        pages = (alloc_pages (first_pages eight_pages) 3).1;
        virtual_base = 12288;
        virtual_pages = 8;
        memory = 1;
      },
    )
unfolding alloc reserve_region lazy_flags
reserved = rw pages_given refl

free-alloc_example :
    Usable counting
      (record {
        pages = (alloc_pages (first_pages eight_pages) 3).1;
        virtual_base = 12288;
        virtual_pages = 8;
        memory = 1;
      })
      8
      3
      fresh-Good.blocks
      12288
free-alloc_example =
    free-alloc counting manager fresh-Good (omega arith) 10000 0 fresh_few 12288 _ reserved
      (omega arith)
