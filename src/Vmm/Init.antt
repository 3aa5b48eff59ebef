-- ===== src/Vmm/Init.antt =====
-- The constructor of `VirtualMemoryManagerPrivate` in kernel/VirtualMemoryManager.cpp.
use shmdos.Prelude.{
  ℕ, ◌+◌, ◌-◌, ◌*◌, ◌/◌, ◌%◌, ◌^◌, ◌≤◌, ◌<◌, ◌≡◌, ◌≢◌, refl, Option, none, some, [], ◌∷◌, arith,
  ltb, if◌then◌else◌, min, last_one_bit,
}
use shmdos.Vmm.Pages.{Pages, word_mod, take_item, add_free_region}
use shmdos.Vmm.Blocks.{free, limbo}
use shmdos.Vmm.Invariant.{Inv}
use shmdos.Vmm.Free.Release
use shmdos.Vmm.Good.{Good}

abbrev pub kernel_virtual_base : ℕ
kernel_virtual_base = 0xFFFFFF8000000000

abbrev pub kernel_min_virtual_memory : ℕ
kernel_min_virtual_memory = 128 * 2 ^ 20

abbrev pub kernel_max_virtual_memory : ℕ
kernel_max_virtual_memory = 511 * 2 ^ 30

abbrev pub align_hi : ℕ → ℕ
align_hi a = (a + 4095) % word_mod / 4096 * 4096

-- Where the constructor puts its two arrays and what they serve.
pub record Layout : Type 0 where
  pub regions_start : ℕ
  pub items_start : ℕ
  pub virtual_base : ℕ
  pub virtual_pages : ℕ
  pub table_size : ℕ

-- The layout of `pages` pages from `free_start` on.
abbrev pub layout_of : ℕ → ℕ → Layout
layout_of free_start pages =
    let regions_size = align_hi ((pages + 1) * 8 % word_mod) in
    let list_size = align_hi (pages * 32 % word_mod) in
    record {
      regions_start = free_start;
      items_start = (free_start + regions_size) % word_mod;
      virtual_base = (free_start + regions_size + list_size) % word_mod;
      virtual_pages = (pages + word_mod - (regions_size + list_size) / 4096) % word_mod;
      table_size = last_one_bit 64 pages + 1;
    }

module _ {S : Type 0} (set_pages_flags : (virtual_base size mask flags : ℕ) → S → Option S) where
  -- `PAGE_FLAG_ALLOCATED | PAGE_FLAG_WRITE | PAGE_FLAG_MEMZERO` for the pages of an array.
  unfoldable pub reserve_array : (start size : ℕ) → Option S → Option S
  reserve_array start size none = none
  reserve_array start size (some memory) = set_pages_flags start size 4095 0x602 memory

  -- The two calls of `setPagesFlags`, which panics without a page of memory for a table.
  unfoldable pub reserve_arrays : Layout → S → Option S
  reserve_arrays l memory =
      reserve_array l.items_start ((l.virtual_base + word_mod - l.items_start) % word_mod) (
        reserve_array l.regions_start ((l.items_start + word_mod - l.regions_start) % word_mod)
          (some memory))

  abbrev pub with_layout : Layout → Option S → Option (Layout × S)
  with_layout l none = none
  with_layout l (some memory) = some (l, memory)

  -- `none` stands for a panic: on incorrect settings, or in a call of `setPagesFlags`.
  unfoldable pub init_layout : (free_start ram : ℕ) → S → Option (Layout × S)
  init_layout free_start ram memory =
      let need = min ((ram + kernel_min_virtual_memory) % word_mod) kernel_max_virtual_memory in
      let used = (free_start + word_mod - kernel_virtual_base) % word_mod in
      let pages = (need - used) / 4096 in
      let l = layout_of free_start pages in
      if ltb need used then none else with_layout l (reserve_arrays l memory)

-- The members and the two arrays, which are zeroed memory.
unfoldable pub blank : Layout → Pages
blank l = record {
  items = λ p. record { num_pages = 0; page_base = 0; prev = 0; next = 0 };
  regions = λ i. 0;
  table = λ c. 0;
  counters = λ c. 0;
  table_size = l.table_size;
  free_items = 0;
  items_start = l.items_start;
}

unfoldable pub first_pages : Layout → Pages
unfolding blank
first_pages l = add_free_region (blank l) 0 l.virtual_pages

blank-Inv :
    (l : Layout)
    → 0 < l.virtual_pages
    → l.virtual_pages < 2 ^ 40
    → (l.items_start % 4 ≡ 0) × (l.items_start ≢ 0)
    → Inv (blank l) (limbo 0 0 l.virtual_pages ∷ [])
unfolding blank
blank-Inv l pos small start = record {
  lists = λ c. [];
  pool = [];
  list_inv = record {
    chains = λ c. refl;
    counts = λ c. refl;
    distinct = λ c. tt;
    apart = λ c d p i. absurd (ground arith);
    known = λ c p i. absurd (ground arith);
    pool_chain = refl;
    pool_distinct = tt;
    pool_known = λ p i. absurd (ground arith);
    pool_apart = λ c p i. absurd (ground arith);
    start = start;
  };
  block_inv = record {
    words = λ i. ground arith;
    owned = (pos, tt);
    listed = λ c p i. absurd (ground arith);
    once = tt;
    small = omega arith;
  };
}

-- One free block of all pages.
pub first-Inv :
    (l : Layout)
    → 0 < l.virtual_pages
    → l.virtual_pages < 2 ^ 40
    → (l.items_start % 4 ≡ 0) × (l.items_start ≢ 0)
    → Inv (first_pages l) (free l.items_start l.virtual_pages ∷ [])
unfolding first_pages blank take_item Release.item
first-Inv l pos small start =
    Release.release-Inv (blank l) [] [] 0 0 l.virtual_pages (blank-Inv l pos small start)

pub first-Good :
    (l : Layout)
    → 0 < l.virtual_pages
    → l.virtual_pages < 2 ^ 40
    → (l.items_start % 4 ≡ 0) × (l.items_start ≢ 0)
    → Good (first_pages l) l.virtual_pages
first-Good l pos small start = record {
  blocks = free l.items_start l.virtual_pages ∷ [];
  inv = first-Inv l pos small start;
  tidy = (refl, tt);
  covers = omega arith;
}

-- What the constructor's arithmetic gives where the kernel has three pages or more left.
pub record Placed (free_start ram : ℕ) (layout : Layout) : Type 0 where
  pub some_pages : 0 < layout.virtual_pages
  pub few_pages : layout.virtual_pages < 2 ^ 27
  pub aligned : (layout.items_start % 4 ≡ 0) × (layout.items_start ≢ 0)
  pub regions_fit : free_start + 8 * (layout.virtual_pages + 1) ≤ layout.items_start
  pub items_fit : layout.items_start + 32 * layout.virtual_pages ≤ layout.virtual_base
  pub pages_fit :
      layout.virtual_base + 4096 * layout.virtual_pages
      ≤ kernel_virtual_base + min (ram + kernel_min_virtual_memory) kernel_max_virtual_memory

-- The two arrays take less than the pages that they serve, and nothing wraps around.
abbrev regions_size : ℕ → ℕ
regions_size pages = (8 * pages + 8 + 4095) / 4096 * 4096

abbrev list_size : ℕ → ℕ
list_size pages = (32 * pages + 4095) / 4096 * 4096

layout_plain :
    (fs p : ℕ)
    → 3 ≤ p
    → p < 2 ^ 27
    → fs + 4096 * p < word_mod
    → ((layout_of fs p).items_start ≡ fs + regions_size p)
      × ((layout_of fs p).virtual_base ≡ fs + regions_size p + list_size p)
      × ((layout_of fs p).virtual_pages ≡ p - (regions_size p / 4096 + list_size p / 4096))
      × (regions_size p / 4096 + list_size p / 4096 < p)
layout_plain fs p many few fits = (omega arith, omega arith, omega arith, omega arith)

module _ (free_start ram : ℕ) (low : kernel_virtual_base ≤ free_start) (al : free_start % 4096 ≡ 0)
    (fits_ram : ram + kernel_min_virtual_memory < word_mod)
    (room : free_start + 3 * 4096
      ≤ kernel_virtual_base + min (ram + kernel_min_virtual_memory) kernel_max_virtual_memory) where
  abbrev pages : ℕ
  pages =
      (min (ram + kernel_min_virtual_memory) kernel_max_virtual_memory
        - (free_start - kernel_virtual_base))
      / 4096

  bounds :
      (3 ≤ pages)
      × (pages < 2 ^ 27)
      × (free_start + 4096 * pages < word_mod)
      × (free_start + 4096 * pages
          ≤ kernel_virtual_base + min (ram + kernel_min_virtual_memory) kernel_max_virtual_memory)
  bounds = (omega arith, omega arith, omega arith, omega arith)

  -- What the constructor computes.
  abbrev pub layout : Layout
  layout = layout_of free_start pages

  pub placed : Placed free_start ram layout
  placed =
      let (many, few, fits, top) = bounds in
      let (items, base, count, less) = layout_plain free_start pages many few fits in
      record {
        some_pages = omega (arith, count, less);
        few_pages = omega (arith, count, few);
        aligned = (omega (arith, items, al), omega (arith, items, low));
        regions_fit = omega (arith, items, count);
        items_fit = omega (arith, items, base, count);
        pages_fit = omega (arith, base, count, less, top);
      }
