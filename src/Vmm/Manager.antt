-- ===== src/Vmm/Manager.antt =====
-- The calls of `VirtualMemoryManagerPrivate` in kernel/VirtualMemoryManager.cpp, over the page
-- allocator and an interface for the page tables and the RAM pages. Each runs under the mutex as a
-- whole. `none` stands for a panic, a pointer is an address, and `flags & F` for one bit is a test.
use shmdos.Prelude.{
  ℕ, zero, suc, ◌+◌, ◌-◌, ◌*◌, ◌/◌, ◌%◌, ◌^◌, Bool, true, false, not, ◌||◌, Option, none, some, ltb,
  leb, ◌==◌, if◌then◌else◌, bit_and, bit_or,
}
use shmdos.Vmm.Pages.{
  Pages, word_mod, invalid_page_offset, is_busy, alloc_pages, free_pages, mark_allocated,
}
pub mod Keeps
pub mod RoundTrip

-- `PagingManager64` and `RamAllocator` as this code calls them, on a state of their own. An
-- allocation of a RAM page panics if there is none.
pub record Paging (S : Type 0) : Type 0 where
  pub map_page : (virtual_base phys flags : ℕ) → S → S
  pub map_pages : (virtual_base phys size flags : ℕ) → S → S
  pub set_pages_flags : (virtual_base size mask flags : ℕ) → S → S
  pub free_ram_pages : (virtual_base size : ℕ) (realloc : Bool) → S → S
  pub alloc_page : S → Option (ℕ × S)

pub record Manager (S : Type 0) : Type 0 where
  pub pages : Pages
  pub virtual_base : ℕ
  pub virtual_pages : ℕ
  pub memory : S

abbrev pub has_flag : ℕ → ℕ → Bool
has_flag flags f = not (bit_and flags f == 0)

-- The number of pages of an allocation of `size` bytes.
abbrev pub page_count : ℕ → ℕ
page_count size = (size + 4095) % word_mod / 4096

abbrev pub page_default_flag : ℕ
page_default_flag = 256

-- The page flags of a committed allocation, and of one that is committed on the first access.
unfoldable pub base_flags : ℕ → ℕ
base_flags flags = if has_flag flags 0x200 then bit_or page_default_flag 16 else page_default_flag

unfoldable pub commit_flags : ℕ → ℕ
unfolding base_flags
commit_flags flags =
    if has_flag flags 4 then bit_or (base_flags flags) 3 else bit_or (base_flags flags) 1

unfoldable pub lazy_flags : ℕ → Option ℕ
unfolding base_flags
lazy_flags flags =
    if has_flag flags 4
    then some (bit_or (base_flags flags) 514)
    else (if has_flag flags 2 then some (bit_or (base_flags flags) 512) else none)

-- `MemoryType` of include/MemoryType.h
pub data MemoryType : Type 0 where
  default_type : MemoryType
  cache_disabled : MemoryType
  write_through : MemoryType
  write_combined : MemoryType

-- The page flags of mapped device memory.
abbrev pub mmio_flags : MemoryType → ℕ
mmio_flags default_type = bit_or 3 page_default_flag
mmio_flags cache_disabled = bit_or (bit_or 3 page_default_flag) 16
mmio_flags write_through = bit_or (bit_or 3 page_default_flag) 8
mmio_flags write_combined = bit_or (bit_or 3 page_default_flag) 24

-- The page flags that `setPagesFlags` asks for. For anything but VMM_NOACCESS and VMM_READONLY the
-- source assigns to `flags` in place of `pflags`, so the test of VMM_NOCACHE that follows fails too.
unfoldable pub protection_flags : ℕ → ℕ
protection_flags flags =
    let cache = if has_flag flags 0x200 then 16 else 0 in
    if has_flag flags 1 then cache else (if has_flag flags 2 then bit_or 1 cache else 0)

-- How the loop over the pages of a committed allocation ends.
pub data Commit (S : Type 0) : Type 0 where
  panicked : Commit S
  failed : (cur : ℕ) (s : S) → Commit S
  committed : (s : S) → Commit S

module _ {S : Type 0} (paging : Paging S) where
  unfoldable pub commit_pages : ℕ → ℕ → ℕ → S → Commit S
  commit_pages zero cur flags s = committed s
  commit_pages (suc k) cur flags s = elim (paging.alloc_page s) [
    | none ↦ panicked
    | some (phys, t) ↦
        let rest =
          commit_pages k ((cur + 4096) % word_mod) flags (paging.map_page cur phys flags t) in
        if phys == invalid_page_offset then failed cur t else rest
  ]

  unfoldable pub after_commit : Manager S → ℕ → ℕ → Commit S → Option (ℕ × Manager S)
  after_commit v base start panicked = none
  after_commit v base start (failed cur s) = some (
    0,
    record v {
      pages = (free_pages v.pages base).1;
      memory = paging.free_ram_pages start (cur - start) false s;
    },
  )
  after_commit v base start (committed s) =
      some (start, record v { pages = mark_allocated v.pages base; memory = s })

  -- What follows a successful `allocPages`.
  unfoldable pub commit_region : Manager S → ℕ → ℕ → ℕ → Option (ℕ × Manager S)
  unfolding commit_pages commit_flags after_commit
  commit_region v base pages flags =
      let start = (v.virtual_base + base * 4096) % word_mod in
      after_commit v base start (commit_pages pages start (commit_flags flags) v.memory)

  unfoldable pub reserve_region : Manager S → ℕ → ℕ → ℕ → ℕ × Manager S
  unfolding lazy_flags
  reserve_region v base size flags =
      let start = (v.virtual_base + base * 4096) % word_mod in
      elim (lazy_flags flags) [
        | none ↦ (start, v)
        | some page_flags ↦ (
          start,
          record v {
            pages = mark_allocated v.pages base;
            memory = paging.set_pages_flags start size 4095 page_flags v.memory;
          },
        )
      ]

  unfoldable pub alloc : Manager S → ℕ → ℕ → Option (ℕ × Manager S)
  unfolding commit_region reserve_region
  alloc v size flags =
      let n = page_count size in
      let r = alloc_pages v.pages n in
      let u = record v { pages = r.1 } in
      if n == 0
      then some (0, v)
      else (if r.0 == invalid_page_offset
          then some (0, u)
          else (if has_flag flags 0x10000
              then commit_region u r.0 n flags
              else some (reserve_region u r.0 size flags)))

  -- The page of a pointer into the managed range.
  unfoldable pub page_of : Manager S → ℕ → Option ℕ
  page_of v pointer =
      let page = (pointer - v.virtual_base) / 4096 in
      if ltb pointer v.virtual_base
      then none
      else (if leb v.virtual_pages page then none else some page)

  -- `free` and `unmapMmio` once the pointer is found to be in the range.
  unfoldable pub free_page : Manager S → ℕ → ℕ → Bool × Manager S
  free_page v pointer page =
      let flagged = v.pages.regions page % 2 == 1 in
      let (n, p) = free_pages v.pages page in
      let u = record v { pages = p } in
      if n == 0 then (false, u) else (
        true,
        if flagged
            then record u {
              memory = paging.free_ram_pages pointer (n * 4096 % word_mod) false u.memory;
            }
            else u,
      )

  unfoldable pub free : Manager S → ℕ → Bool × Manager S
  unfolding page_of free_page
  free v pointer = elim (page_of v pointer) [
    | none ↦ (false, v)
    | some page ↦ free_page v pointer page
  ]

  -- The size handed to `setPagesFlags` is the number of pages, as in the source.
  unfoldable pub unmap_page : Manager S → ℕ → ℕ → Bool × Manager S
  unmap_page v pointer page =
      let (n, p) = free_pages v.pages page in
      let u = record v { pages = p } in
      let cleared =
        if n == 1
        then paging.map_page pointer 0 0 u.memory
        else paging.set_pages_flags pointer n (word_mod - 1) 0 u.memory in
      if n == 0 then (false, u) else (true, record u { memory = cleared })

  unfoldable pub unmap_mmio : Manager S → ℕ → Bool × Manager S
  unfolding page_of unmap_page
  unmap_mmio v pointer = elim (page_of v pointer) [
    | none ↦ (false, v)
    | some page ↦ unmap_page v pointer page
  ]

  unfoldable pub after_alloc : Manager S → ℕ → ℕ → ℕ → MemoryType → ℕ × Manager S
  after_alloc u start mmio_base align_size memory_type =
      let flags = mmio_flags memory_type in
      let mapped =
        if leb align_size 4096
        then paging.map_page start mmio_base flags u.memory
        else paging.map_pages start mmio_base align_size flags u.memory in
      if start == 0
      then (0, u)
      else ((start + mmio_base % 4096) % word_mod, record u { memory = mapped })

  unfoldable pub map_mmio : Manager S → ℕ → ℕ → MemoryType → Option (ℕ × Manager S)
  unfolding alloc after_alloc
  map_mmio v mmio_base size memory_type =
      let align_size = (mmio_base % 4096 + size) % word_mod in
      elim (alloc v align_size 0) [
        | none ↦ none
        | some (start, u) ↦ some (after_alloc u start mmio_base align_size memory_type)
      ]

  unfoldable pub set_pages_flags : Manager S → ℕ → ℕ → ℕ → Bool × Manager S
  unfolding protection_flags
  set_pages_flags v pointer size flags =
      let offset = pointer - v.virtual_base in
      let end = (offset + size + 4095) % word_mod / 4096 in
      let base = offset / 4096 in
      let count = (end + word_mod - base) % word_mod in
      let w = v.pages.regions base in
      let mask = bit_or (bit_or 1 2) 16 in
      if ltb pointer v.virtual_base
        || ltb v.virtual_pages end
        || not (is_busy w)
        || ltb (w / 4096) count
      then (false, v)
      else (
        true,
        record v {
          memory =
              paging.set_pages_flags base (count * 4096 % word_mod) mask (protection_flags flags)
                v.memory;
        },
      )
