-- ===== src/Tlb/Covered.antt =====
-- A processor gets every shootdown of kernel/paging.cpp: a page that it may hold as it was is due.
use shmdos.Prelude.{
  ℕ, ◌+◌, ◌/◌, ◌%◌, ◌≤◌, ◌<◌, ◌≡◌, ◌≢◌, refl, sym, subst, ◌⊎◌, inl, inr, ◌==◌, Bool, true, false,
  ◌||◌, Bool-cases, ==_iff, update, arith,
}
use shmdos.Tlb.{Item, Task, word_mod, old_items, put_item, post, next_item, after_item}
use shmdos.Tlb.Steps.{
  Handler, off, flushing_all, looping, flushing, State, in_range, Step, send, enter_full, enter,
  flush_all, take, flush, flushed, leave, start, Steps, begin, after, item_end, IsInside, AreInside,
}
use shmdos.Tlb.Queue.{Bounded, old_items-count, Posted, nothing, everything, added, post-Posted}

abbrev pub item_range : Item → ℕ → Bool
item_range item = in_range item.addr (item.addr + item.size)

-- A range of whole pages that ends before the last page of the addresses.
abbrev pub Inside : (addr end : ℕ) → Type 0
Inside addr end = (addr % 4096 ≡ 0) × (end + 4096 ≤ word_mod)

abbrev pub ItemInside : Item → Type 0
ItemInside item = Inside item.addr (item.addr + item.size)

-- Why a page is going to be flushed.
pub data IsDue (t : Task) (h : Handler) (p : ℕ) : Type 0 where
  all_waits : t.need_full ≡ true → IsDue t h p
  all_now : h ≡ flushing_all → IsDue t h p
  in_hand : (a e : ℕ) → h ≡ flushing a e → Inside a e → in_range a e p ≡ true → IsDue t h p
  waits :
      (k : ℕ)
      → t.read ≤ k
      → k < t.write
      → ItemInside (t.items (k % 64))
      → item_range (t.items (k % 64)) p ≡ true
      → IsDue t h p

pub record IsSafe (s : State) : Type 0 where
  pub bounded : Bounded s.task
  pub due : (p : ℕ) → s.stale p ≡ true → IsDue s.task s.handler p

clash : {X : Type 0} → false ≡ true → X
clash z = absurd (cc z)

-- A put item does not lie on one that waits.
put-IsDue :
    (t : Task) (item : Item) (h : Handler) (p : ℕ)
    → Bounded t
    → old_items t ≢ 63
    → t.write + 1 < word_mod
    → IsDue t h p
    → IsDue (put_item t item) h p
put-IsDue t item h p b few small (all_waits e) = all_waits e
put-IsDue t item h p b few small (all_now e) = all_now e
put-IsDue t item h p b few small (in_hand a e at aligned r) = in_hand a e at aligned r
put-IsDue t item h p b few small (waits k lo hi aligned r) =
    let count = old_items-count t b in
    let o = b.order in
    let m = b.room in
    let other : (k % 64 == t.write % 64) ≡ false = ground (arith, lo, hi, count, few, o, m) in
    waits k lo (omega (arith, small, hi)) (rw other aligned) (rw other r)

new-IsDue :
    (t : Task) (item : Item) (h : Handler) (p : ℕ)
    → Bounded t
    → t.write + 1 < word_mod
    → ItemInside item
    → item_range item p ≡ true
    → IsDue (put_item t item) h p
new-IsDue t item h p b small aligned r =
    let o = b.order in
    let here : (t.write % 64 == t.write % 64) ≡ true = ground arith in
    waits t.write o (omega (arith, small)) (rw here aligned) (rw here r)

or-cases : (a b : Bool) → (a || b) ≡ true → (a ≡ true) ⊎ (b ≡ true)
or-cases true b e = inl refl
or-cases false b e = inr e

post-IsSafe :
    (s : State) (item : Item) (r : Task × Bool)
    → Posted s.task item r
    → ItemInside item
    → s.task.write + 1 < word_mod
    → IsSafe s
    → Bounded r.0 × ((p : ℕ) → (item_range item p || s.stale p) ≡ true → IsDue r.0 s.handler p)
post-IsSafe s item r (nothing full) aligned small g = (g.bounded, λ p e. all_waits full)
post-IsSafe s item r (everything free) aligned small g =
    (record { order = omega arith; room = omega arith; word = omega arith }, λ p e. all_waits refl)
post-IsSafe s item r (added free few size) aligned small g =
    let b = g.bounded in
    let count = old_items-count s.task b in
    let o = b.order in
    let m = b.room in
    (
      record {
        order = omega (arith, o, small);
        room = omega (arith, o, m, small, count, few);
        word = omega (arith, small);
      },
      λ p e. elim (or-cases (item_range item p) (s.stale p) e) [
        | inl new ↦ new-IsDue s.task item s.handler p b small aligned new
        | inr old ↦ put-IsDue s.task item s.handler p b few small (g.due p old)
      ],
    )

-- Steps of the handler that leave the queue as it is.
keep-IsDue :
    (t : Task) (h g : Handler) (p : ℕ)
    → h ≢ flushing_all
    → ((a e : ℕ) → h ≡ flushing a e → ⊥)
    → IsDue t h p
    → IsDue t g p
keep-IsDue t h g p one two (all_waits e) = all_waits e
keep-IsDue t h g p one two (all_now e) = absurd (one e)
keep-IsDue t h g p one two (in_hand a e at aligned r) = absurd (two a e at)
keep-IsDue t h g p one two (waits k lo hi aligned r) = waits k lo hi aligned r

take-IsDue :
    (t : Task) (p : ℕ)
    → Bounded t
    → t.read ≢ t.write
    → IsDue t looping p
    → IsDue (after_item t) (flushing (next_item t).addr (item_end (next_item t))) p
take-IsDue t p b ne (all_waits e) = all_waits e
take-IsDue t p b ne (all_now e) = absurd (cc e)
take-IsDue t p b ne (in_hand a e at aligned r) = absurd (cc at)
take-IsDue t p b ne (waits k lo hi aligned r) =
    let w = b.word in
    elim (Bool-cases (k == t.read)) [
      | inl same ↦
          let at : k ≡ t.read = (==_iff k t.read).0 same in
          let inside = subst (λ x. ItemInside (t.items (x % 64))) at aligned in
          let end : item_end (next_item t) ≡ (next_item t).addr + (next_item t).size =
            omega (arith, inside.1) in
          in_hand (next_item t).addr (item_end (next_item t)) refl
            (inside.0, subst (λ e. e + 4096 ≤ word_mod) (sym end) inside.1)
            (subst (λ e. in_range (next_item t).addr e p ≡ true) (sym end)
              (subst (λ x. item_range (t.items (x % 64)) p ≡ true) at r))
      | inr other ↦
          let ne : k ≢ t.read = ground (arith, other) in
          waits k (omega (arith, lo, hi, ne, w)) hi aligned r
    ]

-- A page with an address in a range that is not the first of it lies in the rest.
in_range-rest :
    (a e p : ℕ)
    → in_range a e p ≡ true
    → (p == a / 4096) ≡ false
    → a % 4096 ≡ 0
    → in_range (a + 4096) e p ≡ true
unfolding in_range
in_range-rest a e p r other aligned = ground (arith, r, other, aligned)

in_range-end : (a e p : ℕ) → in_range a e p ≡ true → a % 4096 ≡ 0 → e ≤ a → ⊥
unfolding in_range
in_range-end a e p r aligned le = ground (arith, r, aligned, le)

same_addr : {a e b f : ℕ} → flushing a e ≡ flushing b f → b ≡ a
same_addr z = cc

same_end : {a e b f : ℕ} → flushing a e ≡ flushing b f → f ≡ e
same_end z = cc

flush-IsDue :
    (t : Task) (a e p : ℕ)
    → (p == a / 4096) ≡ false
    → a < e
    → IsDue t (flushing a e) p
    → IsDue t (flushing ((a + 4096) % word_mod) e) p
flush-IsDue t a e p other lt (all_waits w) = all_waits w
flush-IsDue t a e p other lt (all_now at) = absurd (cc at)
flush-IsDue t a e p other lt (in_hand b f at (aligned, fits) r) =
    let plain : (a + 4096) % word_mod ≡ b + 4096 =
      omega (arith, lt, fits, same_addr at, same_end at) in
    in_hand ((a + 4096) % word_mod) e refl
      (omega (arith, plain, aligned), omega (arith, fits, same_end at))
      (subst (λ x. in_range x e p ≡ true) (sym plain)
        (subst (λ x. in_range (b + 4096) x p ≡ true) (same_end at)
          (in_range-rest b f p r (subst (λ x. (p == x / 4096) ≡ false) (sym (same_addr at)) other)
            aligned)))
flush-IsDue t a e p other lt (waits k lo hi aligned r) = waits k lo hi aligned r

flushed-IsDue : (t : Task) (a e p : ℕ) → e ≤ a → IsDue t (flushing a e) p → IsDue t looping p
flushed-IsDue t a e p le (all_waits w) = all_waits w
flushed-IsDue t a e p le (all_now at) = absurd (cc at)
flushed-IsDue t a e p le (in_hand b f at aligned r) =
    absurd (in_range-end b f p r aligned.0 (omega (arith, le, same_addr at, same_end at)))
flushed-IsDue t a e p le (waits k lo hi aligned r) = waits k lo hi aligned r

updated : (f : ℕ → Bool) (q p : ℕ) → update f q false p ≡ true → ((p == q) ≡ false) × (f p ≡ true)
updated f q p e = elim (Bool-cases (p == q)) [
  | inl same ↦ clash (rw same at e)
  | inr other ↦ (other, rw other at e)
]

at_handler : {t : Task} {h g : Handler} {p : ℕ} → h ≡ g → IsDue t h p → IsDue t g p
at_handler {t} {h} {g} {p} e = subst (λ x. IsDue t x p) e

Step-IsSafe : {s u : State} (step : Step s u) → IsInside step → IsSafe s → IsSafe u
Step-IsSafe {s} (send item aligned small) inside g =
    let (bounded, due) =
      post-IsSafe s item (post s.task item) (post-Posted s.task item) (aligned, inside) small g in
    record { bounded = bounded; due = due }
Step-IsSafe {s} (enter_full here raised full) inside g =
    let b = g.bounded in
    record {
      bounded = record { order = b.order; room = b.room; word = b.word };
      due = λ p e. all_now refl;
    }
Step-IsSafe {s} (enter here raised free) inside g = record {
  bounded = g.bounded;
  due = λ p e.
      keep-IsDue s.task off looping p (λ z. cc z) (λ a f z. cc z) (at_handler here (g.due p e));
}
Step-IsSafe {s} (flush_all here) inside g = record { bounded = g.bounded; due = λ p e. clash e }
Step-IsSafe {s} (take here ne) inside g =
    let b = g.bounded in
    let o = b.order in
    let m = b.room in
    let w = b.word in
    record {
      bounded = record {
        order = omega (arith, o, ne, w);
        room = omega (arith, o, m, ne, w);
        word = w;
      };
      due = λ p e. take-IsDue s.task p b ne (at_handler here (g.due p e));
    }
Step-IsSafe {s} (flush a f here lt) inside g = record {
  bounded = g.bounded;
  due = λ p e.
      let (other, old) = updated s.stale (a / 4096) p e in
      flush-IsDue s.task a f p other lt (at_handler here (g.due p old));
}
Step-IsSafe {s} (flushed a f here le) inside g = record {
  bounded = g.bounded;
  due = λ p e. flushed-IsDue s.task a f p le (at_handler here (g.due p e));
}
Step-IsSafe {s} (leave here same) inside g = record {
  bounded = g.bounded;
  due = λ p e.
      keep-IsDue s.task looping off p (λ z. cc z) (λ a f z. cc z) (at_handler here (g.due p e));
}

-- In every state that the posts of ranges of whole pages by other processors and the rounds of the handler
-- reach from the start, if every range ends before the last page of the addresses, where the sums of
-- addresses wrap around: at most 63 ranges wait, and each page that the TLB may hold as it was before a
-- change is due. That is, a full flush waits or is about to be done, or the page lies in what is left of
-- the range in the hand of the handler, or in a range that waits.
pub Steps-IsSafe : (s : State) (steps : Steps start s) → AreInside steps → IsSafe s
Steps-IsSafe s begin inside = record {
  bounded = record { order = omega arith; room = omega arith; word = omega arith };
  due = λ p e. clash e;
}
Steps-IsSafe s (after before step) inside =
    Step-IsSafe step inside.1 (Steps-IsSafe _ before inside.0)
