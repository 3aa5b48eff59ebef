-- ===== src/Paging/Tests.antt =====
-- The walks of kernel/paging.cpp on small tables, and their theorems at concrete inputs.
use shmdos.Prelude.{
  ℕ, ◌+◌, ◌*◌, ◌/◌, ◌%◌, ◌^◌, ◌-◌, ◌<◌, ◌≤◌, ◌≡◌, ◌⊎◌, refl, ◌==◌, if◌then◌else◌, ◌&&◌, true,
  Bool-cases, inl, inr, none, some, List, [], ◌∷◌, bit_or, arith,
}
use shmdos.Paging.Walk.{Walk, frame_of, is_present, span, process_pages, each_page}
use shmdos.Paging.Owned.{Owner, Owned, Free}
use shmdos.Paging.Lookup.{lookup}
use shmdos.Paging.Range.{process_pages-each_page}
use shmdos.Paging.Refine.{Shows, Refines, apply_range, process_pages-Refines}
use shmdos.Paging.Calls.{Space, begin, map_entry, map_pages, free_ram_pages, on_page_fault}
use shmdos.Paging.Ranges.{page_map, page_count, first_page, map_pages-entries}
use shmdos.Paging.Release.{mapped, free_ram_pages-mapped}
use shmdos.Paging.Fault.{PlainOn}
use shmdos.Paging.Outcome.{Outcome, on_page_fault-Outcome}

-- An empty root at page 1, and seven free pages.
abbrev empty : Space
empty = record { table = λ d i. 0; frames = 2 ∷ 3 ∷ 4 ∷ 5 ∷ 6 ∷ 7 ∷ 8 ∷ [] }

abbrev root_only : Owner
root_only = record { rank = λ d. if d == 1 then 4 else 0; prefix = λ d. 0 }

empty-Owned : {K : Type 0} (k : K) → Owned root_only (begin empty k)
empty-Owned k = record {
  child_rank = λ d b i r lt ne. absurd (ne refl);
  child_prefix = λ d b i r lt ne. absurd (ne refl);
  free = omega arith;
}

empty-Shows : {K : Type 0} (k : K) → Shows root_only 1 (begin empty k) (page_map (λ q. 0) k)
unfolding lookup
empty-Shows k = record {
  owned = empty-Owned k;
  rank = refl;
  prefix = refl;
  entries = λ q lt. refl;
  kept = refl;
  shootdown = refl;
}

-- The tables of pages 1 to 4 one below another, with an entry for page 5 of the address space.
abbrev chain : ℕ → List ℕ → Space
chain leaf fs = record {
  table = λ d i.
      if d == 1 && i == 0
      then 2 * 4096 + 3
      else if d == 2 && i == 0
      then 3 * 4096 + 3
      else if d == 3 && i == 0
      then 4 * 4096 + 3
      else if d == 4 && i == 5
      then leaf
      else 0;
  frames = fs;
}

-- The page is allocated.
abbrev waiting : Space
waiting = chain 0x602 (9 ∷ [])

-- The page is present.
abbrev resident : Space
resident = chain 0x7003 []

abbrev four_tables : Owner
four_tables = record {
  rank = λ d.
      if d == 1 then 4 else if d == 2 then 3 else if d == 3 then 2 else if d == 4 then 1 else 0;
  prefix = λ d. 0;
}

chain-Owned :
    {K : Type 0} (k : K) (leaf : ℕ) (fs : List ℕ)
    → Free four_tables fs
    → Owned four_tables (begin (chain leaf fs) k)
unfolding frame_of
chain-Owned k leaf fs free = record {
  child_rank = λ d b i r lt ne. ground arith;
  child_prefix = λ d b i r lt ne. ground arith;
  free = free;
}

chain-Shows :
    {K : Type 0} (k : K) (leaf : ℕ) (fs : List ℕ)
    → Free four_tables fs
    → Shows four_tables 1 (begin (chain leaf fs) k) (page_map (λ q. if q == 5 then leaf else 0) k)
unfolding lookup span frame_of
chain-Shows k leaf fs free = record {
  owned = chain-Owned k leaf fs free;
  rank = refl;
  prefix = refl;
  entries = λ q lt. elim (Bool-cases (q / 2 ^ 27 % 512 == 0)) [
    | inr other ↦ rw other (ground arith)
    | inl first ↦ rw first (elim (Bool-cases (q / 2 ^ 18 % 512 == 0)) [
      | inr other ↦ rw other (ground arith)
      | inl second ↦ rw second (elim (Bool-cases (q / 2 ^ 9 % 512 == 0)) [
        | inr other ↦ rw other (ground arith)
        | inl third ↦ rw third (ground arith)
      ])
    ])
  ];
  kept = refl;
  shootdown = refl;
}

waiting-PlainOn : PlainOn 3 1 5 waiting
unfolding span frame_of
waiting-PlainOn = λ _. ((λ z. cc z), refl, λ _. ((λ z. cc z), refl, λ _. ((λ z. cc z), refl, tt)))

-- Two pages of the 2-megabyte boundary: the second range takes another table.
process_pages-each_page_example :
    process_pages (map_entry 3) 3 1 0x1FF000 0x2000 (begin empty 0)
    ≡ each_page
        (map_entry 3)
        3
        3
        ((0x1FF000 % 2 ^ 48 + 0x2000 + 4095) / 4096 - 0x1FF000 % 2 ^ 48 / 4096)
        1
        (0x1FF000 % 2 ^ 48 / 4096)
        (begin empty 0)
process_pages-each_page_example =
    process_pages-each_page (map_entry 3) 3 (omega arith) 1 0x1FF000 0x2000 root_only
      (begin empty 0) (empty-Owned 0) refl (omega arith) (omega arith)

process_pages-Refines_example :
    Refines
      (map_entry 3)
      3
      (omega arith)
      1
      (process_pages (map_entry 3) 3 1 0x1FF000 0x2000 (begin empty 0))
      (apply_range
        (map_entry 3)
        (page_count 0x1FF000 0x2000)
        (first_page 0x1FF000)
        (page_map (λ q. 0) 0))
process_pages-Refines_example =
    process_pages-Refines (map_entry 3) 3 (omega arith) 1 0x1FF000 0x2000 root_only (begin empty 0)
      (page_map (λ q. 0) 0) (empty-Shows 0) (omega arith) (omega arith)

map_pages-entries_example :
    (v : Walk ℕ) × (map_pages 1 0x1FF000 0x5000 0x2000 3 empty ≡ some v)
    × ((i : ℕ)
        → i < page_count 0x1FF000 0x2000
        → lookup 3 1 (first_page 0x1FF000 + i) v ≡ bit_or (0x5000 + i * 4096) 3)
    × ((q : ℕ)
        → q < 2 ^ 36
        → (q < first_page 0x1FF000) ⊎ (first_page 0x1FF000 + page_count 0x1FF000 0x2000 ≤ q)
        → lookup 3 1 q v ≡ 0)
map_pages-entries_example =
    map_pages-entries 1 0x1FF000 0x2000 root_only empty (λ q. 0) (omega arith) (omega arith)
      (omega arith) 0x5000 3 (empty-Shows 0x5000) (omega arith)

on_page_fault-Outcome_example :
    Outcome 1
      (0x5123 / 4096 % 2 ^ 36)
      four_tables
      waiting
      (λ q. if q == 5 then 0x602 else 0)
      (on_page_fault 1 0x5123 2 waiting)
on_page_fault-Outcome_example =
    on_page_fault-Outcome 1 0x5123 2 four_tables waiting (λ q. if q == 5 then 0x602 else 0)
      (chain-Shows tt 0x602 (9 ∷ []) (omega arith)) waiting-PlainOn refl

free_ram_pages-mapped_example :
    (free_ram_pages 1 0x5000 1 true resident ≡ none)
    ⊎ ((v : Walk (List ℕ)) × (free_ram_pages 1 0x5000 1 true resident ≡ some v)
        × (v.kept
            ≡ mapped
                (page_count 0x5000 1)
                (first_page 0x5000)
                (λ q. if q == 5 then 0x7003 else 0)
                [])
        × ((i : ℕ)
            → i < page_count 0x5000 1
            → is_present (lookup 3 1 (first_page 0x5000 + i) v) ≡ true
            → frame_of (lookup 3 1 (first_page 0x5000 + i) v) ≡ 0)
        × ((q : ℕ)
            → q < 2 ^ 36
            → (q < first_page 0x5000) ⊎ (first_page 0x5000 + page_count 0x5000 1 ≤ q)
            → lookup 3 1 q v ≡ (if q == 5 then 0x7003 else 0)))
free_ram_pages-mapped_example =
    free_ram_pages-mapped true 1 0x5000 1 four_tables resident (λ q. if q == 5 then 0x7003 else 0)
      (chain-Shows [] 0x7003 [] tt) (omega arith) (omega arith)

freed_run :
    mapped (page_count 0x5000 1) (first_page 0x5000) (λ q. if q == 5 then 0x7003 else 0) [] ≡ 7 ∷ []
unfolding is_present frame_of
freed_run = refl
