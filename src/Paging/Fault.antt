-- ===== src/Paging/Fault.antt =====
-- How `onPageFault` of kernel/paging.cpp finds the entry of a page.
use shmdos.Prelude.{
  ℕ, zero, suc, ◌+◌, ◌*◌, ◌/◌, ◌%◌, ◌<◌, ◌≡◌, ◌≢◌, refl, sym, ap, ◌∙◌, inl, inr, ◌==◌, true, false,
  Bool-cases, ==_iff, arith,
}
use shmdos.Paging.Walk.{Walk, frame_of, span}
use shmdos.Paging.Owned.{Owner, Owned}
use shmdos.Paging.Spans.{span-whole, span-next}
use shmdos.Paging.Lookup.{lookup, On, On-child, lookup-none, lookup-some}
use shmdos.Paging.Calls.{Space, begin, Found, missing, last_table, find_table}

abbrev pub walk_of : Space → Walk (Unit {0})
walk_of s = begin s tt

-- What the entries on the way to a page are to be, each but for one that is 0: no large page, and not for
-- page 0 of memory. Entries elsewhere may be so.
abbrev pub PlainOn : (below dir page : ℕ) → Space → Type 0
PlainOn zero dir page s = Unit {0}
PlainOn (suc below) dir page s =
    s.table dir (page / span (suc below) % 512) ≢ 0
    → (frame_of (s.table dir (page / span (suc below) % 512)) ≢ 0)
      × ((s.table dir (page / span (suc below) % 512) / 128 % 2 == 1) ≡ false)
      × PlainOn below (frame_of (s.table dir (page / span (suc below) % 512))) page s

zero_frame : (frame_of 0 == 0) ≡ true
unfolding frame_of
zero_frame = refl

-- The same inner tables.
abbrev pub SameInner : Owner → Walk (Unit {0}) → Space → Type 0
SameInner o u s = (e j a : ℕ) → o.rank e ≡ suc (suc a) → u.table e j ≡ s.table e j

-- The search finds no table, and then the page has no entry, or the table that holds its entry, also
-- when entries of pages change.
pub data Finds (o : Owner) (s : Space) (b d p : ℕ) : Found → Type 0 where
  nothing : lookup b d p (walk_of s) ≡ 0 → Finds o s b d p missing
  table_at :
      (t : ℕ)
      → o.rank t ≡ 1
      → On o t 0 p
      → ((u : Walk (Unit {0})) → SameInner o u s → lookup b d p u ≡ u.table t (p % 512))
      → Finds o s b d p (last_table t)

Finds-above :
    (o : Owner) (s : Space) (b d p : ℕ) {f : Found}
    → o.rank d ≡ suc (suc b)
    → s.table d (p / span (suc b) % 512) ≢ 0
    → Finds o s b (frame_of (s.table d (p / span (suc b) % 512))) p f
    → Finds o s (suc b) d p f
Finds-above o s b d p r ne (Finds.nothing e) = Finds.nothing (lookup-some b d p (walk_of s) ne ∙ e)
Finds-above o s b d p r ne (Finds.table_at t rt on same) = Finds.table_at t rt on (λ u inner.
    let entry = inner d (p / span (suc b) % 512) b r in
    lookup-some b d p u (λ z. ne (sym entry ∙ z))
    ∙ ap (λ x. lookup b (frame_of x) p u) entry
    ∙ same u inner)

pub find_table-Finds :
    (b d p : ℕ) (o : Owner) (s : Space)
    → b < 4
    → Owned o (walk_of s)
    → PlainOn b d p s
    → o.rank d ≡ suc b
    → On o d b p
    → Finds o s b d p (find_table b d p s)
unfolding find_table lookup
find_table-Finds zero d p o s lt h c r on = Finds.table_at d r on (λ u inner. refl)
find_table-Finds (suc b) d p o s lt h c r on =
    elim (Bool-cases (s.table d (p / span (suc b) % 512) == 0)) [
      | inl gone ↦
          let z = (==_iff (s.table d (p / span (suc b) % 512)) 0).0 gone in
          let no_frame : (frame_of (s.table d (p / span (suc b) % 512)) == 0) ≡ true =
            frame_of-zero _ z in
          rw no_frame (Finds.nothing (lookup-none b d p (walk_of s) z))
      | inr there ↦
          let ne : s.table d (p / span (suc b) % 512) ≢ 0 = λ z. ground (arith, there, z) in
          let rank = h.child_rank d b (p / span (suc b) % 512) r (omega arith) ne in
          let (frame, small, deeper) = c ne in
          let some_frame : (frame_of (s.table d (p / span (suc b) % 512)) == 0) ≡ false =
            ground (arith, frame) in
          rw (some_frame, small)
            (Finds-above o s b d p r ne (
              find_table-Finds b (frame_of (s.table d (p / span (suc b) % 512))) p o s (omega arith)
                h deeper rank
                (On-child o d (frame_of (s.table d (p / span (suc b) % 512))) b p (omega arith) on
                  (h.child_prefix d b (p / span (suc b) % 512) r (omega arith) ne))))
    ]
  where
    frame_of-zero : (e : ℕ) → e ≡ 0 → (frame_of e == 0) ≡ true
    frame_of-zero e z = rw z (zero_frame)

-- Only the low 36 bits of the number of a page count.
pub find_table-whole :
    (b k d x : ℕ) (s : Space) → b < 4 → find_table b d (k * span (suc b) + x) s ≡ find_table b d x s
unfolding find_table
find_table-whole zero k d x s lt = refl
find_table-whole (suc b) k d x s lt =
    let deeper =
      ap (λ t. find_table b (frame_of (s.table d (x / span (suc b) % 512))) (t + x) s)
        (span-next b k (omega arith))
      ∙ find_table-whole b (k * 512) (frame_of (s.table d (x / span (suc b) % 512))) x s
          (omega arith) in
    rw (span-whole b k x (omega arith), deeper) refl
