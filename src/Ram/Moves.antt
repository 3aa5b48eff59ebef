-- ===== src/Ram/Moves.antt =====
-- Steps of one thread on the list of free pages of kernel/phmem.cpp that leave the list as it is.
use shmdos.Prelude.{
  ℕ, ◌≡◌, ◌≢◌, sym, subst, ◌∙◌, inl, inr, ◌==◌, false, Bool-cases, ==_iff, none, some, List, update,
  arith,
}
use shmdos.Ram.{set_link}
use shmdos.Ram.Steps.{
  Thread, idle, alloc_head, alloc_count, alloc_link, free_page, free_head, free_count, free_link,
  State, move,
}
use shmdos.Ram.Invariant.{has, page_of, Given, Fits, IsGood, Chain-update, Fits-link}

-- All threads but one go on as they were.
pub Fits-update :
    (P : Thread → Type 0) (thread : ℕ → Thread) (t : ℕ) (to : Thread)
    → ((u : ℕ) → u ≢ t → P (thread u))
    → P to
    → (u : ℕ) → P (update thread t to u)
Fits-update P thread t to others here u = elim (Bool-cases (u == t)) [
  | inl same ↦ rw same here
  | inr other ↦ rw other (others u (λ z. ground (arith, other, z)))
]

pub alone-update :
    (thread : ℕ → Thread) (t : ℕ) (to : Thread)
    → ((u v p : ℕ) → page_of (thread u) ≡ some p → page_of (thread v) ≡ some p → u ≡ v)
    → ((u p : ℕ) → page_of to ≡ some p → page_of (thread u) ≡ some p → u ≡ t)
    → (u v p : ℕ) → page_of (update thread t to u) ≡ some p
    → page_of (update thread t to v) ≡ some p
    → u ≡ v
alone-update thread t to alone here u v p pu pv = elim (Bool-cases (u == t)) [
  | inl u_t ↦ elim (Bool-cases (v == t)) [
    | inl v_t ↦ (==_iff u t).0 u_t ∙ sym ((==_iff v t).0 v_t)
    | inr v_else ↦ (==_iff u t).0 u_t ∙ sym (here v p (rw u_t at pu) (rw v_else at pv))
  ]
  | inr u_else ↦ elim (Bool-cases (v == t)) [
    | inl v_t ↦ here u p (rw v_t at pv) (rw u_else at pu) ∙ sym ((==_iff v t).0 v_t)
    | inr v_else ↦ alone u v p (rw u_else at pu) (rw v_else at pv)
  ]
]

module _ (stop : ℕ) (s : State) (fs : List ℕ) (g : IsGood stop s fs) where
  -- A thread that changes only its own state, and keeps the page that it gives back.
  pub IsGood-move :
      (t : ℕ) (to : Thread)
      → Fits stop s.ram s.user fs to
      → ((p : ℕ) → page_of to ≡ some p → page_of (s.thread t) ≡ some p)
      → IsGood stop (move s t to) fs
  IsGood-move t to fits same = record {
    chain = g.chain;
    distinct = g.distinct;
    users = g.users;
    stop_user = g.stop_user;
    fits = Fits-update (Fits stop s.ram s.user fs) s.thread t to (λ u ne. g.fits u) fits;
    alone =
        alone-update s.thread t to g.alone (λ u p here there. g.alone u t p there (same p here));
  }

  pub Fits-at : (t : ℕ) (th : Thread) → s.thread t ≡ th → Fits stop s.ram s.user fs th
  Fits-at t th e = rw e at (g.fits t)

  pub page_of-Given :
      (t p : ℕ) (th : Thread)
      → s.thread t ≡ th
      → page_of th ≡ some p
      → page_of (s.thread t) ≡ some p
  page_of-Given t p th e page = rw e page

  -- A write to a page of a user, or by the thread that gives the page back.
  pub IsGood-link :
      (p v : ℕ)
      → has p fs ≡ false
      → ((u : ℕ) → page_of (s.thread u) ≢ some p)
      → IsGood stop (record s { ram = set_link s.ram p v }) fs
  IsGood-link p v out own = record {
    chain = Chain-update s.ram.link stop s.ram.head p v fs out g.chain;
    distinct = g.distinct;
    users = g.users;
    stop_user = g.stop_user;
    fits = λ u. Fits-link stop p v s.ram s.user fs (s.thread u) g.chain out (own u) (g.fits u);
    alone = g.alone;
  }

  -- The page of a thread is no user's and not free.
  pub page-Given : (t p : ℕ) → page_of (s.thread t) ≡ some p → Given stop s.user fs p
  page-Given t p e = from (s.thread t) e (g.fits t)
    where
      same : {q p : ℕ} → some q ≡ some p → Given stop s.user fs q → Given stop s.user fs p
      same {q} {p} e h = let qp : q ≡ p = cc in subst (Given stop s.user fs) qp h

      clash : {p : ℕ} → none ≡ some p → ⊥
      clash z = cc

      from :
          (th : Thread)
          → page_of th ≡ some p
          → Fits stop s.ram s.user fs th
          → Given stop s.user fs p
      from idle e f = absurd (clash e)
      from (alloc_head h) e f = absurd (clash e)
      from (alloc_count h c) e f = absurd (clash e)
      from (alloc_link h c n) e f = absurd (clash e)
      from (free_page q) e f = same e f
      from (free_head q h) e f = same e f
      from (free_count q h c) e f = same e f
      from (free_link q h c) e f = same e f.0
