-- ===== src/Vmm/Pages.antt =====
-- The page allocator of kernel/VirtualMemoryManager.cpp: regions of free pages in lists by size
-- class, and a word for each page. A pointer is an address, 0 the null pointer; `w & 1` is `w % 2`,
-- `w & 2` is `w / 2 % 2`, and `w & ~3` is `w / 4 * 4`.
use shmdos.Prelude.{
  ℕ, zero, suc, ◌+◌, ◌-◌, ◌*◌, ◌/◌, ◌%◌, ◌^◌, Bool, not, Option, none, some, min, ltb, leb, ◌==◌,
  if◌then◌else◌, update, last_one_bit,
}

-- `VmmFreeMemoryListItem`, 32 bytes
pub record Item : Type 0 where
  pub num_pages : ℕ
  pub page_base : ℕ
  pub prev : ℕ
  pub next : ℕ

-- The members of `VirtualMemoryManagerPrivate` that the page allocator uses; `items` is the memory
-- behind the item pointers.
pub record Pages : Type 0 where
  pub items : ℕ → Item
  pub regions : ℕ → ℕ
  pub table : ℕ → ℕ
  pub counters : ℕ → ℕ
  pub table_size : ℕ
  pub free_items : ℕ
  pub items_start : ℕ

abbrev pub word_mod : ℕ
word_mod = 2 ^ 64

abbrev pub max_alloc_iterations : ℕ
max_alloc_iterations = 32

abbrev pub invalid_page_offset : ℕ
invalid_page_offset = 2 ^ 64 - 1

abbrev pub busy_flag : ℕ
busy_flag = 2

abbrev pub is_busy : ℕ → Bool
is_busy w = w / 2 % 2 == 1

abbrev pub size_class : ℕ → ℕ
size_class n = last_one_bit 64 n

-- Writes through an item pointer.
abbrev pub set_next : (ℕ → Item) → ℕ → ℕ → ℕ → Item
set_next items p q = update items p (record (items p) { next = q })

abbrev pub set_prev : (ℕ → Item) → ℕ → ℕ → ℕ → Item
set_prev items p q = update items p (record (items p) { prev = q })

-- An item from the pool of released ones, or else the next of the array.
unfoldable pub take_item : Pages → ℕ × Pages
take_item v =
    if v.free_items == 0
    then (v.items_start, record v { items_start = v.items_start + 32 })
    else (v.free_items, record v { free_items = (v.items v.free_items).next })

unfoldable pub link_item : Pages → ℕ → ℕ → ℕ → Pages
link_item v item base pages =
    let c = size_class pages in
    let flt = v.table c in
    let items =
      update v.items item (record { num_pages = pages; page_base = base; prev = 0; next = flt }) in
    let regions = update v.regions base item in
    record v {
      items = if flt == 0 then items else set_prev items flt item;
      table = update v.table c item;
      counters = update v.counters c (v.counters c + 1);
      regions = if ltb 1 pages then update regions (base + pages - 1) item else regions;
    }

unfoldable pub add_free_region : Pages → ℕ → ℕ → Pages
unfolding take_item link_item
add_free_region v base pages = let (item, v') = take_item v in link_item v' item base pages

-- The region leaves its list: the head by the table, another by its neighbours.
unfoldable pub unlink_item : Pages → ℕ → ℕ → Pages
unlink_item v c region =
    let it = v.items region in
    if region == v.table c
    then record v { table = update v.table c it.next }
    else (let items = set_next v.items it.prev it.next in
        record v { items = if it.next == 0 then items else set_prev items it.next it.prev })

-- Its item goes to the pool.
unfoldable pub delete_free_region : Pages → ℕ → ℕ → Pages
unfolding unlink_item
delete_free_region v c region =
    let u = unlink_item v c region in
    record u {
      items = set_next u.items region u.free_items;
      free_items = region;
      counters = update u.counters c (u.counters c - 1);
    }

unfoldable pub set_busy_region : Pages → ℕ → ℕ → ℕ → Pages
unfolding delete_free_region
set_busy_region v c region pages =
    let base = (v.items region).page_base in
    let u = delete_free_region v c region in
    let regions = update u.regions base (pages * 4096 % word_mod + busy_flag) in
    record u {
      regions = if ltb 1 pages then update regions (base + pages - 1) busy_flag else regions;
    }

-- The first loop of `allocPages`: an exact fit, or where the loop ended with the best fit so far.
pub data Scan : Type 0 where
  exact : (item : ℕ) → Scan
  best : (cur item delta : ℕ) → Scan

unfoldable pub scan : ℕ → (ℕ → Item) → ℕ → ℕ → ℕ → ℕ → Scan
scan zero items pages cur min_item min_delta = best cur min_item min_delta
scan (suc k) items pages cur min_item min_delta =
    let it = items cur in
    let delta = it.num_pages - pages in
    let keep = scan k items pages it.next min_item min_delta in
    let take = scan k items pages it.next cur delta in
    if leb pages it.num_pages
    then (if delta == 0 then exact cur else (if ltb delta min_delta then take else keep))
    else keep

-- The second loop: the first non-empty class, of `k` classes from `c` on.
unfoldable pub larger_class : ℕ → Pages → ℕ → Option ℕ
larger_class zero v c = none
larger_class (suc k) v c =
    let rest = larger_class k v (c + 1) in if ltb 0 (v.counters c) then some c else rest

-- The third loop: the first region of the rest of the list that is large enough.
unfoldable pub first_fit : ℕ → (ℕ → Item) → ℕ → ℕ → Option ℕ
first_fit zero items pages cur = none
first_fit (suc f) items pages cur =
    let rest = first_fit f items pages (items cur).next in
    if cur == 0 then none else (if leb pages (items cur).num_pages then some cur else rest)

-- The region becomes busy, and its last `rest` pages a new free region.
unfoldable pub split_region : Pages → ℕ → ℕ → ℕ → ℕ → ℕ × Pages
unfolding set_busy_region add_free_region
split_region v c item pages rest =
    let u = set_busy_region v c item pages in
    ((v.items item).page_base, add_free_region u ((u.items item).page_base + pages) rest)

-- The region becomes busy as it is.
unfoldable pub whole_region : Pages → ℕ → ℕ → ℕ → ℕ × Pages
unfolding set_busy_region
whole_region v c item pages = ((v.items item).page_base, set_busy_region v c item pages)

-- The loop over the first items of the class; with no round `curListItem` stays null.
unfoldable pub scan_class : Pages → ℕ → Scan
unfolding scan
scan_class v pages =
    let c = size_class pages in
    let rounds = min (v.counters c) max_alloc_iterations in
    if rounds == 0
    then best 0 0 invalid_page_offset
    else scan rounds v.items pages (v.table c) 0 invalid_page_offset

-- What follows the first loop if no item of it is large enough.
unfoldable pub alloc_elsewhere : Pages → ℕ → ℕ → ℕ × Pages
unfolding larger_class first_fit split_region whole_region
alloc_elsewhere v pages cur =
    let c = size_class pages in
    elim (larger_class (v.table_size - (c + 1)) v (c + 1)) [
      | some idx ↦
          split_region v idx (v.table idx) pages ((v.items (v.table idx)).num_pages - pages)
      | none ↦ elim (first_fit (v.counters c + 1) v.items pages cur) [
        | some item ↦ whole_region v c item pages
        | none ↦ (invalid_page_offset, v)
      ]
    ]

unfoldable pub alloc_pages : Pages → ℕ → ℕ × Pages
unfolding scan_class alloc_elsewhere
alloc_pages v pages = elim (scan_class v pages) [
  | exact item ↦ whole_region v (size_class pages) item pages
  | best cur item delta ↦
      if item == 0
      then alloc_elsewhere v pages cur
      else split_region v (size_class pages) item pages delta
]

-- The region that `freePages` is about to make: its base and its size.
pub record Merge : Type 0 where
  pub pages : Pages
  pub base : ℕ
  pub size : ℕ

-- The item behind the word of a page, if the page borders a free region.
abbrev pub free_neighbour : ℕ → Option ℕ
free_neighbour w =
    if is_busy w then none else (let p = w / 4 * 4 in if p == 0 then none else some p)

-- The free region before the page `base` joins.
unfoldable pub merge_before : Pages → ℕ → ℕ → Merge
unfolding delete_free_region
merge_before v base size =
    let keep : Merge = record { pages = v; base = base; size = size } in
    if base == 0 then keep else elim (free_neighbour (v.regions (base - 1))) [
      | none ↦ keep
      | some item ↦
          let n = (v.items item).num_pages in
          let u = delete_free_region v (size_class n) item in
          let regions = update u.regions base 0 in
          record {
            pages = record u { regions = if ltb 1 n then update regions (base - 1) 0 else regions };
            base = (v.items item).page_base;
            size = size + n;
          }
    ]

-- The free region from the page `end` on joins. It follows another, so its base is above 0.
unfoldable pub merge_after : Merge → ℕ → Merge
unfolding delete_free_region
merge_after m end =
    let v = m.pages in
    elim (free_neighbour (v.regions end)) [
      | none ↦ m
      | some item ↦
          let n = (v.items item).num_pages in
          let u = delete_free_region v (size_class n) item in
          let b = (u.items item).page_base in
          record {
            pages = record u { regions = update (update u.regions (b - 1) 0) b 0 };
            base = m.base;
            size = m.size + n;
          }
    ]

-- The number of pages that were freed, 0 where no busy region begins at the page.
unfoldable pub free_pages : Pages → ℕ → ℕ × Pages
unfolding merge_before merge_after add_free_region
free_pages v base =
    let w = v.regions base in
    let n = w / 4096 in
    let m = merge_after (merge_before v base n) (base + n) in
    if not (is_busy w)
    then (0, v)
    else (if n == 0 then (0, v) else (n, add_free_region m.pages m.base m.size))

-- `m_memoryRegions[base] |= VMM_REG_ALLOC_FLAG`
unfoldable pub mark_allocated : Pages → ℕ → Pages
mark_allocated v base =
    let w = v.regions base in record v { regions = update v.regions base (w / 2 * 2 + 1) }
