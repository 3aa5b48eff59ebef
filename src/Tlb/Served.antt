-- ===== src/Tlb/Served.antt =====
-- No shootdown of kernel/paging.cpp waits for good without an interrupt, in calm runs.
use shmdos.Prelude.{
  ℕ, ◌<◌, ◌≡◌, ◌≢◌, refl, sym, subst, ◌∙◌, ◌⊎◌, inl, inr, ◌==◌, Bool, true, false, ◌||◌, Bool-cases,
  ==_iff, arith,
}
use shmdos.Tlb.{Item, Task, update_tlb_limit, old_items, post}
use shmdos.Tlb.Steps.{
  Handler, off, flushing_all, looping, flushing, State, Step, send, enter_full, enter, flush_all,
  take, flush, flushed, leave, start, Steps, begin, after, AreInside,
}
use shmdos.Tlb.Queue.{
  Bounded, old_items-count, Posted, nothing, everything, added, post-Posted, post-full, post-small,
}
use shmdos.Tlb.Covered.{IsDue, all_waits, all_now, in_hand, waits, IsSafe, Steps-IsSafe}

-- No post turns to a full flush while ranges wait.
abbrev pub IsCalm : {s u : State} → Step s u → Type 0
IsCalm {s} (send item aligned small) =
    (old_items s.task ≡ 0) ⊎ ((old_items s.task ≢ 63) × (item.size < update_tlb_limit))
IsCalm _ = Unit {0}

abbrev pub AreCalm : {s u : State} → Steps s u → Type 0
AreCalm begin = Unit {0}
AreCalm (after before step) = AreCalm before × IsCalm step

abbrev in_loop : Handler → Bool
in_loop off = false
in_loop flushing_all = false
in_loop looping = true
in_loop (flushing a e) = true

record IsServed (s : State) : Type 0 where
  full : s.task.need_full ≡ true → (s.raised ≡ true) × (s.task.read ≡ s.task.write)
  some_wait : s.task.read ≢ s.task.write → (s.raised ≡ true) ⊎ (in_loop s.handler ≡ true)

clash : {X : Type 0} → false ≡ true → X
clash z = absurd (cc z)

or-left : (a b : Bool) → a ≡ true → (a || b) ≡ true
or-left a b e = rw e refl

or-right : (a b : Bool) → b ≡ true → (a || b) ≡ true
or-right true b e = refl
or-right false b e = e

-- A post makes no full flush due, or asks for an interrupt.
abbrev Rings : Task → Task × Bool → Type 0
Rings t r = (r.0.need_full ≡ t.need_full) ⊎ (r.1 ≡ true)

Posted-Rings :
    (t : Task) (item : Item) (r : Task × Bool) → Posted t item r → old_items t ≡ 0 → Rings t r
Posted-Rings t item r (nothing full) idle = inl refl
Posted-Rings t item r (everything free) idle = inr ((==_iff (old_items t) 0).1 idle)
Posted-Rings t item r (added free few size) idle = inl refl

post-Rings :
    (t : Task) (item : Item)
    → (old_items t ≡ 0) ⊎ ((old_items t ≢ 63) × (item.size < update_tlb_limit))
    → Rings t (post t item)
post-Rings t item (inl idle) = Posted-Rings t item (post t item) (post-Posted t item) idle
post-Rings t item (inr (few, small)) = elim (Bool-cases t.need_full) [
  | inl full ↦ subst (Rings t) (sym (post-full t item full)) (inl refl)
  | inr free ↦
      subst (Rings t) (sym (post-small t item free (ground (arith, few)) (ground (arith, small))))
        (inl refl)
]

post-IsServed :
    (s : State) (item : Item) (r : Task × Bool)
    → Posted s.task item r
    → Bounded s.task
    → Rings s.task r
    → IsServed s
    → (r.0.need_full ≡ true → ((s.raised || r.1) ≡ true) × (r.0.read ≡ r.0.write))
      × (r.0.read ≢ r.0.write → ((s.raised || r.1) ≡ true) ⊎ (in_loop s.handler ≡ true))
post-IsServed s item r (nothing full) b calm v = (
  λ f. (or-left s.raised false (v.full full).0, (v.full full).1),
  λ ne. absurd (ne (v.full full).1),
)
post-IsServed s item r (everything free) b (inl kept) v = clash (sym free ∙ sym kept)
post-IsServed s item r (everything free) b (inr now) v =
    (λ f. (or-right s.raised _ now, refl), λ ne. absurd (ne refl))
post-IsServed s item r (added free few size) b calm v = (
  λ f. clash (sym free ∙ f),
  λ ne. elim (Bool-cases (old_items s.task == 0)) [
    | inl idle ↦ inl (or-right s.raised _ idle)
    | inr more ↦
        let count = old_items-count s.task b in
        let some_wait : s.task.read ≢ s.task.write = ground (arith, more, count) in
        elim (v.some_wait some_wait) [
          | inl raised ↦ inl (or-left s.raised _ raised)
          | inr loops ↦ inr loops
        ]
  ],
)

Step-IsServed : {s u : State} (step : Step s u) → IsCalm step → IsSafe s → IsServed s → IsServed u
Step-IsServed {s} (send item aligned small) calm g v =
    let (full, some_wait) =
      post-IsServed s item (post s.task item) (post-Posted s.task item) g.bounded
        (post-Rings s.task item calm) v in
    record { full = full; some_wait = some_wait }
Step-IsServed {s} (enter_full here raised full) calm g v = record {
  full = λ f. clash f;
  some_wait = λ ne. absurd (ne (v.full full).1);
}
Step-IsServed {s} (enter here raised free) calm g v = record {
  full = λ f. clash (sym free ∙ f);
  some_wait = λ ne. inr refl;
}
Step-IsServed {s} (flush_all here) calm g v = record {
  full = v.full;
  some_wait = λ ne. elim (v.some_wait ne) [
    | inl raised ↦ inl raised
    | inr loops ↦ clash (subst (λ h. in_loop h ≡ true) here loops)
  ];
}
Step-IsServed {s} (take here ne) calm g v = record {
  full = λ f. absurd (ne (v.full f).1);
  some_wait = λ _. inr refl;
}
Step-IsServed {s} (flush a e here lt) calm g v = record {
  full = v.full;
  some_wait = λ ne. inr refl;
}
Step-IsServed {s} (flushed a e here le) calm g v = record {
  full = v.full;
  some_wait = λ ne. inr refl;
}
Step-IsServed {s} (leave here same) calm g v = record {
  full = v.full;
  some_wait = λ ne. absurd (ne same);
}

Steps-IsServed : (s : State) (steps : Steps start s) → AreCalm steps → AreInside steps → IsServed s
Steps-IsServed s begin calm inside = record {
  full = λ f. clash f;
  some_wait = λ ne. absurd (ne refl);
}
Steps-IsServed s (after {u} before step) calm inside =
    Step-IsServed step calm.1 (Steps-IsSafe u before inside.0)
      (Steps-IsServed u before calm.0 inside.0)

IsDue-served :
    (s : State) (p : ℕ)
    → IsServed s
    → IsDue s.task s.handler p
    → (s.raised ≡ true) ⊎ (s.handler ≢ off)
IsDue-served s p v (all_waits full) = inl (v.full full).0
IsDue-served s p v (all_now at) = inr (λ z. cc (at, z))
IsDue-served s p v (in_hand a e at aligned r) = inr (λ z. cc (at, z))
IsDue-served s p v (waits k lo hi aligned r) =
    elim (v.some_wait (λ same. omega (arith, lo, hi, same))) [
      | inl raised ↦ inl raised
      | inr loops ↦ inr (λ z. clash (subst (λ h. in_loop h ≡ true) z loops))
    ]

-- In every state that is reached from the start by steps of which no post turns to a full flush while
-- ranges wait, and each range posted is of whole pages and ends before the last page of the addresses: as
-- long as the TLB may hold a page as it was before a change, an interrupt is on its way or the handler is
-- running.
pub Steps-served :
    (s : State) (p : ℕ) (steps : Steps start s)
    → AreCalm steps
    → AreInside steps
    → s.stale p ≡ true
    → (s.raised ≡ true) ⊎ (s.handler ≢ off)
Steps-served s p steps calm inside stale =
    IsDue-served s p (Steps-IsServed s steps calm inside)
      ((Steps-IsSafe s steps inside).due p stale)
