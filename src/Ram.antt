-- ===== src/Ram.antt =====
-- The list of free pages of memory: kernel/phmem.cpp. The pages are named by their addresses.
pub mod Steps
pub mod Invariant
pub mod Moves
pub mod Changes
pub mod Reach
pub mod Init
mod Tests
use shmdos.Prelude.{
  ℕ, zero, suc, ◌+◌, ◌-◌, ◌/◌, ◌%◌, ◌^◌, ◌==◌, if◌then◌else◌, Bool, true, false, ◌&&◌, List, [],
  ◌∷◌, max, update,
}

-- `m_header`, the first word of every page of memory, and the two sums over the regions.
pub record Ram : Type 0 where
  pub head : ℕ
  pub count : ℕ
  pub link : ℕ → ℕ
  pub size : ℕ
  pub max_addr : ℕ

abbrev pub word_mod : ℕ
word_mod = 2 ^ 64

-- `cpuInterlockedCompareExchange128`, with the count of the seen header raised by one.
unfoldable pub compare_exchange : Ram → (head count new : ℕ) → Bool × Ram
compare_exchange r head count new =
    if r.head == head && r.count == count
    then (true, record r { head = new; count = (count + 1) % word_mod })
    else (false, r)

-- `*static_cast<void**>(addr) = header.m_head`.
abbrev pub set_link : Ram → (page value : ℕ) → Ram
set_link r page value = record r { link = update r.link page value }

-- The loop of the constructor over the pages of a region, with this many pages behind the one at `ptr`.
unfoldable pub link_pages : (count ptr last : ℕ) → (ℕ → ℕ) → ℕ → ℕ
link_pages zero ptr last link = update link ptr last
link_pages (suc n) ptr last link = link_pages n (ptr + 4096) last (update link ptr (ptr + 4096))

unfoldable pub add_pages : (pages start : ℕ) → Ram → Ram
add_pages zero start r = r
add_pages (suc n) start r = record r { link = link_pages n start r.head r.link; head = start }

-- One region of physical memory, from `start` up to `end`. A page has a virtual address, `offset` above.
unfoldable pub add_region : (offset start end : ℕ) → Ram → Ram
add_region offset start end r =
    add_pages ((end - start) / 4096) (start + offset)
      (record r { size = r.size + (end - start); max_addr = max r.max_addr end })

unfoldable pub add_regions : ℕ → List (ℕ × ℕ) → Ram → Ram
add_regions offset [] r = r
add_regions offset ((start, end) ∷ regions) r =
    add_regions offset regions (add_region offset start end r)

abbrev pub new_ram : (end_list : ℕ) → (ℕ → ℕ) → Ram
new_ram end_list memory = record {
  head = end_list;
  count = 0;
  link = memory;
  size = 0;
  max_addr = 0;
}
