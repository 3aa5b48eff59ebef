-- ===== src/Tlb/Lost.antt =====
-- A full shootdown of kernel/paging.cpp that comes while the handler flushes a range and others wait.
use shmdos.Prelude.{
  ℕ, ◌+◌, ◌*◌, ◌/◌, ◌≤◌, ◌≡◌, ◌≢◌, refl, sym, ap, subst, ◌∙◌, ◌==◌, Bool, true, false, ◌||◌, arith,
}
use shmdos.Tlb.{Item, update_tlb_limit, old_items}
use shmdos.Tlb.Steps.{
  Handler, off, flushing_all, looping, flushing, State, in_range, posted, Step, send, enter_full,
  enter, flush_all, take, flush, flushed, leave, Steps, begin, after,
}
use shmdos.Tlb.Queue.{post-full, post-large}

-- The handler ends without another look at the full flush.
abbrev Ends : (end : ℕ) → Handler → Type 0
Ends end off = Unit {0}
Ends end flushing_all = ⊥
Ends end looping = Unit {0}
Ends end (flushing a e) = e ≡ end

record IsLost (end : ℕ) (s : State) : Type 0 where
  full : s.task.need_full ≡ true
  none_waits : s.task.read ≡ s.task.write
  quiet : s.raised ≡ false
  ends : Ends end s.handler

clash : {X : Type 0} → false ≡ true → X
clash z = absurd (cc z)

or-right : (a b : Bool) → b ≡ true → (a || b) ≡ true
or-right true b e = refl
or-right false b e = e

-- What a page behind the end is after a step.
abbrev Stays : (end : ℕ) → State → State → Type 0
Stays end s u = (p : ℕ) → end ≤ p * 4096 → s.stale p ≡ true → u.stale p ≡ true

Step-IsLost : {end : ℕ} {s u : State} → Step s u → IsLost end s → IsLost end u × Stays end s u
Step-IsLost {end} {s} (send item aligned small) l =
    let same = post-full s.task item l.full in
    (
      record {
        full = ap (λ r. r.0.need_full) same ∙ l.full;
        none_waits = rw same l.none_waits;
        quiet = rw (l.quiet, same) refl;
        ends = l.ends;
      },
      λ p le e. or-right (in_range item.addr (item.addr + item.size) p) (s.stale p) e,
    )
Step-IsLost (enter_full here raised full) l = clash (sym l.quiet ∙ raised)
Step-IsLost (enter here raised full) l = clash (sym l.quiet ∙ raised)
Step-IsLost {end} (flush_all here) l = absurd (subst (Ends end) here l.ends)
Step-IsLost (take here ne) l = absurd (ne l.none_waits)
Step-IsLost {end} {s} (flush a e here lt) l =
    let same : e ≡ end = subst (Ends end) here l.ends in
    (
      record { full = l.full; none_waits = l.none_waits; quiet = l.quiet; ends = same },
      λ p le old.
          let other : (p == a / 4096) ≡ false = ground (arith, lt, le, same) in rw other old,
    )
Step-IsLost (flushed a e here le) l = (
  record { full = l.full; none_waits = l.none_waits; quiet = l.quiet; ends = tt },
  λ p le old. old,
)
Step-IsLost (leave here same) l = (
  record { full = l.full; none_waits = l.none_waits; quiet = l.quiet; ends = tt },
  λ p le old. old,
)

Steps-IsLost : {end : ℕ} {s u : State} → IsLost end s → Steps s u → IsLost end u × Stays end s u
Steps-IsLost l begin = (l, λ p le e. e)
Steps-IsLost l (after before step) =
    let (now, so_far) = Steps-IsLost l before in
    let (next, on) = Step-IsLost step now in (next, λ p le e. on p le (so_far p le e))

-- If the handler is in a range that ends at `e`, other ranges wait, no interrupt is on its way and no
-- full flush is due: after the post of a range of at least 4 MB, and in every state that any steps from
-- there reach, the full flush is due, no interrupt is on its way, and each page behind `e` that was not
-- flushed at the post is not flushed.
pub post-IsLost :
    (s u : State) (item : Item) (a e : ℕ)
    → s.handler ≡ flushing a e
    → old_items s.task ≢ 0
    → s.raised ≡ false
    → s.task.need_full ≡ false
    → update_tlb_limit ≤ item.size
    → Steps (posted s item) u
    → (u.task.need_full ≡ true)
      × (u.raised ≡ false)
      × ((p : ℕ) → e ≤ p * 4096 → (posted s item).stale p ≡ true → u.stale p ≡ true)
post-IsLost s u item a e here some_wait quiet free large steps =
    let done = post-large s.task item free some_wait large in
    let lost : IsLost e (posted s item) = record {
      full = ap (λ r. r.0.need_full) done;
      none_waits = rw done refl;
      quiet = rw (quiet, done) refl;
      ends = subst (Ends e) (sym here) refl;
    } in
    let (l, stays) = Steps-IsLost lost steps in (l.full, l.quiet, stays)
