-- ===== src/Ram/Reach.antt =====
-- The list of free pages of kernel/phmem.cpp in every state that threads reach.
use shmdos.Prelude.{ℕ, ◌≡◌, ◌≢◌, refl, sym, ap, ◌∙◌, true, false, some, List, ◌∷◌, arith}
use shmdos.Ram.{Ram, compare_exchange}
use shmdos.Ram.Steps.{
  idle, alloc_count, alloc_link, free_page, free_head, free_link, State, Step, see_head, see_count,
  see_link, take, take_again, write, release, see_free_head, see_free_count, store, give,
  give_again, Reachable, begin, after,
}
use shmdos.Ram.Invariant.{
  Chain, has, Distinct, page_of, IsGood, compare_exchange-true, Chain-head, has-head,
}
use shmdos.Ram.Moves.{IsGood-move, Fits-at, page_of-Given, page-Given}
use shmdos.Ram.Changes.{
  IsGood-take, IsGood-give, IsGood-release, IsGood-write, IsGood-store, no_page, clash,
}

abbrev Goes : ℕ → State → Type 0
Goes stop s = (fs : List ℕ) × IsGood stop s fs

Step-Goes : {stop : ℕ} {s u : State} → Step stop s u → Goes stop s → Goes stop u
Step-Goes {stop} {s} (see_head t e) (fs, g) =
    (fs, IsGood-move stop s fs g t _ tt (λ p page. absurd (no_page page)))
Step-Goes {stop} {s} (see_count t h e) (fs, g) =
    (fs, IsGood-move stop s fs g t _ (omega arith) (λ p page. absurd (no_page page)))
Step-Goes {stop} {s} (see_link t h c e ne) (fs, g) =
    let f = Fits-at stop s fs g t (alloc_count h c) e in
    (fs, IsGood-move stop s fs g t _ (f, ne, λ x y. refl) (λ p page. absurd (no_page page)))
Step-Goes {stop} {s} (take t h c n e done small) (fs, g) =
    IsGood-take stop s fs g t h c n e done small
Step-Goes {stop} {s} (take_again t h c n e done) (fs, g) =
    (fs, IsGood-move stop s fs g t idle tt (λ p page. absurd (no_page page)))
Step-Goes {stop} {s} (write p v held) (fs, g) = (fs, IsGood-write stop s fs g p v held)
Step-Goes {stop} {s} (release t p e held) (fs, g) = (fs, IsGood-release stop s fs g t p e held)
Step-Goes {stop} {s} (see_free_head t p e) (fs, g) = (
  fs,
  IsGood-move stop s fs g t _ (Fits-at stop s fs g t (free_page p) e)
      (λ q page. page_of-Given stop s fs g t q (free_page p) e page),
)
Step-Goes {stop} {s} (see_free_count t p h e) (fs, g) = (
  fs,
  IsGood-move stop s fs g t _ (Fits-at stop s fs g t (free_head p h) e)
      (λ q page. page_of-Given stop s fs g t q (free_head p h) e page),
)
Step-Goes {stop} {s} (store t p h c e) (fs, g) = (fs, IsGood-store stop s fs g t p h c e)
Step-Goes {stop} {s} (give t p h c e done small) (fs, g) =
    (p ∷ fs, IsGood-give stop s fs g t p h c e done small)
Step-Goes {stop} {s} (give_again t p h c e done) (fs, g) = (
  fs,
  IsGood-move stop s fs g t (free_page p) (Fits-at stop s fs g t (free_link p h c) e).0
      (λ q page. page_of-Given stop s fs g t q (free_link p h c) e page),
)

-- From a list of distinct pages, and for any interleaving of the atomic steps of threads that take and
-- give back pages and of writes to pages in use: the links from the head make a list without repetition
-- that ends at the end marker; no page in it is in use, none is on the way back, and no page in use or of
-- another thread is on the way back.
pub Reachable-IsGood :
    (stop : ℕ) (r : Ram) (fs : List ℕ) (s : State)
    → Chain r.link stop r.head fs
    → Distinct fs
    → Reachable stop r s
    → (now : List ℕ) × IsGood stop s now
Reachable-IsGood stop r fs s chain distinct begin = (
  fs,
  record {
    chain = chain;
    distinct = distinct;
    users = λ p there. refl;
    stop_user = refl;
    fits = λ t. tt;
    alone = λ t u p page. absurd (no_page page);
  },
)
Reachable-IsGood stop r fs s chain distinct (after before step) =
    Step-Goes step (Reachable-IsGood stop r fs _ chain distinct before)

-- From a list of distinct pages, and after any atomic steps of threads that take and give back pages
-- and writes to pages in use, a thread whose exchange succeeds takes a page that is in nobody's use
-- and that no thread is giving back, other than the end marker.
pub take-free :
    (stop : ℕ) (r : Ram) (fs : List ℕ) (s : State) (t h c n : ℕ)
    → Chain r.link stop r.head fs
    → Distinct fs
    → Reachable stop r s
    → s.thread t ≡ alloc_link h c n
    → (compare_exchange s.ram h c n).0 ≡ true
    → (s.user h ≡ false) × ((u : ℕ) → page_of (s.thread u) ≢ some h) × (h ≢ stop)
take-free stop r fs s t h c n chain distinct reached e done =
    let (now, g) = Reachable-IsGood stop r fs s chain distinct reached in
    let head_h = (compare_exchange-true s.ram h c n done).0 in
    let ne = (Fits-at stop s now g t (alloc_link h c n) e).1 in
    let (rest, now_eq, below) =
      Chain-head s.ram.link stop s.ram.head now g.chain (λ z. ne (sym head_h ∙ z)) in
    let there : has h now ≡ true =
      ap (has h) (now_eq ∙ ap (λ x. x ∷ rest) head_h) ∙ has-head h rest in
    (g.users h there, λ u page. clash (sym there ∙ (page-Given stop s now g u h page).1), ne)
