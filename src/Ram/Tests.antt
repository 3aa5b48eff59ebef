-- ===== src/Ram/Tests.antt =====
-- The list of free pages of kernel/phmem.cpp, on three pages of two regions.
use shmdos.Prelude.{ℕ, ◌≡◌, ◌≢◌, refl, true, false, List, [], ◌∷◌, some, arith}
use shmdos.Ram.{Ram, compare_exchange, add_regions, add_region, add_pages, link_pages, new_ram}
use shmdos.Ram.Invariant.{Chain, Distinct, page_of, IsGood}
use shmdos.Ram.Steps.{
  State, start, move, alloc_head, alloc_count, alloc_link, Reachable, begin, after, see_head,
  see_count, see_link,
}
use shmdos.Ram.Reach.{Reachable-IsGood, take-free}
use shmdos.Ram.Init.{Ascending, add_regions-Chain}

abbrev end_list : ℕ
end_list = 1048576

abbrev regions : List (ℕ × ℕ)
regions = (4096, 12288) ∷ (20480, 24576) ∷ []

regions-Ascending : Ascending 65536 0 end_list regions
regions-Ascending =
    (omega arith, omega arith, omega arith, (omega arith, omega arith, omega arith, tt))

abbrev made : Ram
made = add_regions 65536 regions (new_ram end_list (λ a. 0))

abbrev made_pages : List ℕ
made_pages = 86016 ∷ 69632 ∷ 73728 ∷ []

add_regions-Chain_example : Chain made.link end_list made.head made_pages × Distinct made_pages
add_regions-Chain_example =
    add_regions-Chain 65536 0 end_list regions (new_ram end_list (λ a. 0)) [] regions-Ascending tt
      tt refl

made-Chain : Chain made.link end_list made.head made_pages × Distinct made_pages
made-Chain =
    add_regions-Chain 65536 0 end_list regions (new_ram end_list (λ a. 0)) [] regions-Ascending tt
      tt refl

made-head : made.head ≡ 86016
unfolding add_regions add_region add_pages link_pages
made-head = refl

abbrev seen : State
seen =
    move (move (move (start made) 0 (alloc_head made.head)) 0 (alloc_count made.head made.count)) 0
      (alloc_link made.head made.count (made.link made.head))

seen-Reachable : Reachable end_list made seen
seen-Reachable =
    after (after (after begin (see_head 0 refl)) (see_count 0 made.head refl))
      (see_link 0 made.head made.count refl (λ z. omega (arith, made-head, z)))

seen-exchange : (compare_exchange seen.ram made.head made.count (made.link made.head)).0 ≡ true
unfolding compare_exchange add_regions add_region add_pages link_pages
seen-exchange = refl

take-free_example :
    (seen.user made.head ≡ false)
    × ((u : ℕ) → page_of (seen.thread u) ≢ some made.head)
    × (made.head ≢ end_list)
take-free_example =
    take-free end_list made made_pages seen 0 made.head made.count (made.link made.head)
      made-Chain.0 made-Chain.1 seen-Reachable refl seen-exchange

Reachable-IsGood_example : (now : List ℕ) × IsGood end_list seen now
Reachable-IsGood_example =
    Reachable-IsGood end_list made made_pages seen made-Chain.0 made-Chain.1 seen-Reachable
