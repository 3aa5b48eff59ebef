-- ===== src/Paging/Calls.antt =====
-- The operations of kernel/paging.cpp on the tables: `mapPages`, `mapPage`, `setPagesFlags`,
-- `freeRamPages`, `freeRamPage` and `onPageFault`. The flush of the TLB comes behind each of them.
use shmdos.Prelude.{
  ℕ, zero, suc, ◌+◌, ◌-◌, ◌*◌, ◌/◌, ◌%◌, ◌==◌, if◌then◌else◌, Bool, true, false, not, Option, none,
  some, List, [], ◌∷◌, ◌++◌, update, bit_and, bit_or,
}
use shmdos.Paging.Walk.{Walk, frame_of, is_present, span, word_mod, process_pages, process_page}

-- The tables and the free pages of the RAM allocator.
pub record Space : Type 0 where
  pub table : ℕ → ℕ → ℕ
  pub frames : List ℕ

-- Before a walk nothing has been found present.
abbrev pub begin : {K : Type 0} → Space → K → Walk K
begin s k = record { table = s.table; frames = s.frames; kept = k; shootdown = false }

abbrev pub space_of : {K : Type 0} → Walk K → Space
space_of w = record { table = w.table; frames = w.frames }

-- `(pageFlags & PAGE_FLAG_USER) | PAGE_FLAG_PRESENT | PAGE_FLAG_WRITE`, of the bits 2, 0 and 1.
unfoldable pub dir_flags : ℕ → ℕ
dir_flags page_flags = page_flags / 4 % 2 * 4 + 3

-- The address of the next page is captured.
unfoldable pub map_entry : ℕ → ℕ → ℕ → ℕ × ℕ
map_entry page_flags phys entry = ((phys + 4096) % word_mod, bit_or phys page_flags)

unfoldable pub map_pages : (root base phys size page_flags : ℕ) → Space → Option (Walk ℕ)
map_pages root base phys size page_flags s =
    process_pages (map_entry page_flags) (dir_flags page_flags) root base size (begin s phys)

unfoldable pub map_page : (root base phys page_flags : ℕ) → Space → Option (Walk ℕ)
map_page root base phys page_flags s =
    process_page (λ k entry. (k, bit_or phys page_flags)) (dir_flags page_flags) root base
      (begin s phys)

unfoldable pub flag_entry : (mask page_flags : ℕ) → Unit {0} → ℕ → Unit {0} × ℕ
flag_entry mask page_flags k entry = (k, bit_or (bit_and entry (word_mod - 1 - mask)) page_flags)

unfoldable pub set_pages_flags :
    (root base size mask page_flags : ℕ) → Space → Option (Walk (Unit {0}))
set_pages_flags root base size mask page_flags s =
    process_pages (flag_entry mask page_flags) (dir_flags page_flags) root base size (begin s tt)

-- Bit 9. It is clear where the code sets it, or set already.
abbrev pub allocated : ℕ → Bool
allocated entry = entry / 512 % 2 == 1

-- The pages given back, the last one first. The low bits but `PAGE_FLAG_PRESENT` stay.
unfoldable pub free_entry : Bool → List ℕ → ℕ → List ℕ × ℕ
unfolding is_present frame_of
free_entry virtual_allocated freed entry =
    let low = entry % 4096 / 2 * 2 in
    let flagged = if allocated low then low else low + 512 in
    if is_present entry
    then (if frame_of entry == 0
        then (freed, entry)
        else (frame_of entry ∷ freed, if virtual_allocated then flagged else low))
    else (freed, entry)

-- No tables are made for flags of 0, so the pages can be given back behind the walk.
unfoldable pub free_ram_pages : (root base size : ℕ) → Bool → Space → Option (Walk (List ℕ))
free_ram_pages root base size virtual_allocated s =
    process_pages (free_entry virtual_allocated) 0 root base size (begin s [])

unfoldable pub free_ram_page : (root base : ℕ) → Bool → Space → Option (Walk (List ℕ))
free_ram_page root base virtual_allocated s =
    process_page (free_entry virtual_allocated) 0 root base (begin s [])

abbrev pub after_free : Walk (List ℕ) → Space
after_free w = record { table = w.table; frames = w.kept ++ w.frames }

-- How the walk of `onPageFault` to the last table ends: without one, in a panic at a large page, or there.
pub data Found : Type 0 where
  missing : Found
  large : Found
  last_table : ℕ → Found

unfoldable pub find_table : (below dir page : ℕ) → Space → Found
find_table zero dir page s = last_table dir
find_table (suc below) dir page s =
    let entry = s.table dir (page / span (suc below) % 512) in
    let rest = find_table below (frame_of entry) page s in
    if frame_of entry == 0 then missing else if entry / 128 % 2 == 1 then large else rest

-- The flags of the entry but `PAGE_FLAG_ALLOCATED`, the page and `PAGE_FLAG_PRESENT`, which was clear.
unfoldable pub fault_entry : (entry frame : ℕ) → ℕ
fault_entry entry frame = frame * 4096 + entry / 1024 % 4 * 1024 + entry % 512 + 1

-- `allocPage`, which clears the page if `PAGE_FLAG_MEMZERO` (bit 10) asks for it.
unfoldable pub alloc_page : Space → (frame entry : ℕ) → ℕ → ℕ → ℕ
alloc_page s f entry = if entry / 1024 % 2 == 1 then update s.table f (λ i. 0) else s.table

unfoldable pub supplied : Space → (frame : ℕ) → List ℕ → (dir index : ℕ) → Space
supplied s f fs dir index =
    let memory = alloc_page s f (s.table dir index) in
    record {
      table = update memory dir (update (memory dir) index (fault_entry (s.table dir index) f));
      frames = fs;
    }

unfoldable pub supply : List ℕ → (dir index : ℕ) → Space → Option (Space × Bool)
supply [] dir index s = none
supply (f ∷ fs) dir index s = some (supplied s f fs dir index, true)

unfoldable pub fault_at : (dir index : ℕ) → Space → Option (Space × Bool)
fault_at dir index s =
    if is_present (s.table dir index)
    then some (s, true)
    else if not (allocated (s.table dir index))
    then some (s, false)
    else supply s.frames dir index s

unfoldable pub fault_in : Found → ℕ → Space → Option (Space × Bool)
fault_in missing page s = some (s, false)
fault_in large page s = none
fault_in (last_table dir) page s = fault_at dir (page % 512) s

-- Whether the fault has been dealt with. Bit 0 of the code is `ecPageProtection`.
unfoldable pub on_page_fault : (root addr error_code : ℕ) → Space → Option (Space × Bool)
on_page_fault root addr error_code s =
    if error_code % 2 == 1
    then some (s, false)
    else fault_in (find_table 3 root (addr / 4096) s) (addr / 4096) s
