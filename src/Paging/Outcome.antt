-- ===== src/Paging/Outcome.antt =====
-- All outcomes of `onPageFault` of kernel/paging.cpp.
use shmdos.Prelude.{
  ℕ, ◌+◌, ◌*◌, ◌/◌, ◌%◌, ◌^◌, ◌<◌, ◌≡◌, refl, sym, ap, ◌∙◌, ◌⊎◌, inl, inr, ◌==◌, Bool, true, false,
  Bool-cases, Option, none, some, List, [], ◌∷◌, update, arith,
}
use shmdos.Paging.Walk.{Walk, frame_of, frame_mod, is_present, span}
use shmdos.Paging.Owned.{Owner}
use shmdos.Paging.Spans.{span-root, span-low}
use shmdos.Paging.Lookup.{lookup, On}
use shmdos.Paging.Refine.{Shows}
use shmdos.Paging.Calls.{
  Space, allocated, Found, find_table, fault_entry, supply, supplied, fault_at, fault_in,
  on_page_fault,
}
use shmdos.Paging.Ranges.{page_map}
use shmdos.Paging.Fault.{walk_of, PlainOn, SameInner, Finds, find_table-Finds, find_table-whole}
use shmdos.Paging.Supply.{after, free_f, Shows-after}

-- An entry for this page of memory, present and no longer to be allocated, with the other flags.
pub record IsSupplied (old new page : ℕ) : Type 0 where
  pub present : is_present new ≡ true
  pub frame : frame_of new ≡ page
  pub done : allocated new ≡ false
  pub flags : (new % 512 ≡ old % 512 + 1) × (new / 1024 % 4 ≡ old / 1024 % 4)

fault_entry-IsSupplied :
    (e f : ℕ) → f < frame_mod → is_present e ≡ false → IsSupplied e (fault_entry e f) f
unfolding fault_entry is_present frame_of
fault_entry-IsSupplied e f lt absent =
    let even : e % 2 ≡ 0 = ground (arith, absent) in
    record {
      present = ground (arith, even);
      frame = omega (arith, even);
      done = ground (arith, even);
      flags = (omega (arith, even), omega (arith, even));
    }

-- What the handler returns for an entry e, in a state whose tables show the map m: the four cases exclude
-- one another.
pub data Outcome (root p : ℕ) (o : Owner) (s : Space) (m : ℕ → ℕ) (r : Option (Space × Bool))
    : Type 0 where
  there : is_present (m p) ≡ true → r ≡ some (s, true) → Outcome root p o s m r
  refused :
      is_present (m p) ≡ false
      → allocated (m p) ≡ false
      → r ≡ some (s, false)
      → Outcome root p o s m r
  used_up :
      is_present (m p) ≡ false
      → allocated (m p) ≡ true
      → s.frames ≡ []
      → r ≡ none
      → Outcome root p o s m r
  supplies :
      (f : ℕ) (fs : List ℕ) (u : Space) (entry : ℕ)
      → is_present (m p) ≡ false
      → allocated (m p) ≡ true
      → s.frames ≡ f ∷ fs
      → r ≡ some (u, true)
      → u.frames ≡ fs
      → IsSupplied (m p) entry f
      → Shows o root (walk_of u) (page_map (update m p entry) tt)
      → Outcome root p o s m r

List-cases : (xs : List ℕ) → (xs ≡ []) ⊎ ((f : ℕ) × (fs : List ℕ) × (xs ≡ f ∷ fs))
List-cases [] = inl refl
List-cases (f ∷ fs) = inr (f, fs, refl)

module _ (root : ℕ) (o : Owner) (s : Space) (m : ℕ → ℕ)
    (h : Shows o root (walk_of s) (page_map m tt)) (p : ℕ) (lt : p < 2 ^ 36) where
  at_table :
      (t : ℕ)
      → o.rank t ≡ 1
      → On o t 0 p
      → ((u : Walk (Unit {0})) → SameInner o u s → lookup 3 root p u ≡ u.table t (p % 512))
      → Outcome root p o s m (fault_at t (p % 512) s)
  unfolding fault_at supply after supplied
  at_table t rt on finds =
      let m_p : m p ≡ s.table t (p % 512) =
        sym (h.entries p lt) ∙ finds (walk_of s) (λ e j a r. refl) in
      elim (Bool-cases (is_present (s.table t (p % 512)))) [
        | inl present ↦ Outcome.there (rw m_p present) (rw present refl)
        | inr absent ↦ elim (Bool-cases (allocated (s.table t (p % 512)))) [
          | inr free ↦ Outcome.refused (rw m_p absent) (rw m_p free) (rw (absent, free) refl)
          | inl waits ↦ elim (List-cases s.frames) [
            | inl none_left ↦
                Outcome.used_up (rw m_p absent) (rw m_p waits) none_left
                  (rw (absent, waits, none_left) refl)
            | inr (f, fs, available) ↦
                Outcome.supplies f fs (after root o s m h t p f fs rt on lt available)
                  (fault_entry (m p) f) (rw m_p absent) (rw m_p waits) available
                  (rw (absent, waits, available) refl) refl
                  (fault_entry-IsSupplied (m p) f
                    (free_f root o s m h t p f fs rt on lt available).0 (rw m_p absent))
                  (Shows-after root o s m h t p f fs rt on lt available finds m_p)
          ]
        ]
      ]

  in_found :
      {f : Found}
      → Finds o s 3 root p f
      → (q : ℕ) → q % 512 ≡ p % 512
      → Outcome root p o s m (fault_in f q s)
  unfolding fault_in is_present
  in_found (Finds.nothing e) q same =
      let m_p = sym (h.entries p lt) ∙ e in Outcome.refused (rw m_p refl) (rw m_p refl) refl
  in_found (Finds.table_at t rt on finds) q same = rw same (at_table t rt on finds)

-- For a fault that is no protection fault, in a state whose tables show a map of the pages, and where no
-- entry of an inner table on the way to the page is a large page or is for page 0 of memory: where the
-- entry of the page is present, the handler changes nothing and says that it has dealt with the fault;
-- where it is neither present nor allocated, it changes nothing and says that it has not; where it is
-- allocated, it panics if there is no page of memory, and otherwise takes the first free page, and then
-- the tables show the map with an entry for that page, present and not allocated, with the other flags
-- that it had, and no other entry changed.
pub on_page_fault-Outcome :
    (root addr error_code : ℕ) (o : Owner) (s : Space) (m : ℕ → ℕ)
    → Shows o root (walk_of s) (page_map m tt)
    → PlainOn 3 root (addr / 4096 % 2 ^ 36) s
    → error_code % 2 ≡ 0
    → Outcome root (addr / 4096 % 2 ^ 36) o s m (on_page_fault root addr error_code s)
unfolding on_page_fault
on_page_fault-Outcome root addr error_code o s m h c no_protection =
    let test : (error_code % 2 == 1) ≡ false = ground (arith, no_protection) in
    let page = addr / 4096 in
    let low = find_table-whole 3 (page / 2 ^ 36) root (page % 2 ^ 36) s (omega arith) in
    let found : find_table 3 root page s ≡ find_table 3 root (page % 2 ^ 36) s =
      ap (λ x. find_table 3 root x s) (sym (span-low page)) ∙ low in
    rw (test, found)
      (in_found root o s m h (page % 2 ^ 36) (omega arith)
        (find_table-Finds 3 root (page % 2 ^ 36) o s (omega arith) h.owned c h.rank (
          ap (λ t. t * 512 + page % 2 ^ 36 / span 3 % 512) h.prefix
          ∙ span-root (page % 2 ^ 36) (omega arith)))
        page (omega arith))
