-- ===== src/Paging/Whole.antt =====
-- A walk over a range of pages is a walk to one page after another.
use shmdos.Prelude.{
  ℕ, zero, suc, ◌+◌, ◌*◌, ◌/◌, ◌%◌, ◌≤◌, ◌<◌, ◌≡◌, ◌≢◌, refl, sym, ap, ◌∙◌, inl, inr, ◌==◌, false,
  Option-cases, Option, none, some, arith,
}
use shmdos.Paging.Walk.{
  Walk, frame_of, ◌>>=◌, access_to_child_dir, touch, touch_range, walk_page, each_page, span,
}
use shmdos.Paging.Owned.{Owner, Owned, ChildResult}
use shmdos.Paging.Opening.{access_to_child_dir-ChildResult}
use shmdos.Paging.Stable.{Kept, Kept-refl, Kept-trans, Walked, walk_page-Walked}
use shmdos.Paging.Spans.{span-index, span-whole, span-next, span-page}

module _ {K : Type 0} (callback : K → ℕ → K × ℕ) (flags : ℕ) (small : flags < 4096) where
  abbrev pub pages : (b count d page : ℕ) → Walk K → Option (Walk K)
  pages = each_page callback flags

  -- A range in two parts.
  pub each_page-add :
      (b m n d page : ℕ) (w : Walk K)
      → pages b (m + n) d page w ≡ (pages b m d page w >>= λ u. pages b n d (page + m) u)
  unfolding each_page
  each_page-add b zero n d page w =
      let count : 0 + n ≡ n = omega arith in
      let start : page + 0 ≡ page = omega arith in rw (count, start) refl
  each_page-add b (suc m) n d page w =
      let count : suc m + n ≡ suc (m + n) = omega arith in
      let start : page + suc m ≡ page + 1 + m = omega arith in
      rw (count, start)
        (elim (Option-cases (walk_page callback flags b d page w)) [
          | inl e ↦ rw e refl
          | inr (u, e) ↦ rw e (each_page-add b m n d (page + 1) u)
        ])

  abbrev pub Results : Owner → Walk K → Option (Walk K) → Type 0
  Results = Walked callback flags small

  Walked-then :
      {o : Owner} {w : Walk K} {r : Option (Walk K)} (f : Walk K → Option (Walk K))
      → Results o w r
      → ((o' : Owner) (u : Walk K) → Kept o o' w u → Results o' u (f u))
      → Results o w (r >>= f)
  Walked-then f (Walked.panics e) next = Walked.panics (rw e refl)
  Walked-then {o = o} {w = w} f (Walked.ends u o' e k) next = rw e (onwards (next o' u k))
    where
      onwards : {r : Option (Walk K)} → Results o' u r → Results o w r
      onwards (Walked.panics e) = Walked.panics e
      onwards (Walked.ends v o'' e k') = Walked.ends v o'' e (Kept-trans k k')

  pub Kept-rank :
      {o o' : Owner} {w u : Walk K} {d b : ℕ} → Kept o o' w u → o.rank d ≡ suc b → o'.rank d ≡ suc b
  Kept-rank {d = d} k r = (k.grows d (λ z. omega (arith, r, z))).0 ∙ r

  pub each_page-Walked :
      (b n d page : ℕ) (o : Owner) (w : Walk K)
      → Owned o w
      → o.rank d ≡ suc b
      → Results o w (pages b n d page w)
  unfolding each_page
  each_page-Walked b zero d page o w h r = Walked.ends w o refl (Kept-refl o w h)
  each_page-Walked b (suc n) d page o w h r =
      Walked-then (pages b n d (page + 1)) (walk_page-Walked callback flags small b d page o w h r)
        (λ o' u k. each_page-Walked b n d (page + 1) o' u k.owned (Kept-rank k r))

  -- Whole tables in front of a page do not matter below.
  walk_page-whole :
      (b k d x : ℕ) (w : Walk K)
      → b < 4
      → walk_page callback flags b d (k * span (suc b) + x) w ≡ walk_page callback flags b d x w
  unfolding walk_page
  walk_page-whole zero k d x w lt = rw (span-page k x) refl
  walk_page-whole (suc b) k d x w lt =
      rw (span-whole b k x (omega arith))
        (elim (Option-cases (access_to_child_dir w d (x / span (suc b) % 512) flags)) [
          | inl e ↦ rw e refl
          | inr (r, e) ↦ rw e (
              ap (λ t. walk_page callback flags b r.0 (t + x) r.1) (span-next b k (omega arith))
              ∙ walk_page-whole b (k * 512) r.0 x r.1 (omega arith))
        ])

  access-there :
      (w : Walk K) (d i c : ℕ)
      → w.table d i ≢ 0
      → frame_of (w.table d i) ≡ c
      → access_to_child_dir w d i flags ≡ some (c, w)
  unfolding access_to_child_dir
  access-there w d i c ne e =
      let there : (w.table d i == 0) ≡ false = ground (arith, ne) in rw (there, e) refl

  pub touch_range-each_page :
      (n d i : ℕ) (w : Walk K) → i + n ≤ 512 → pages 0 n d i w ≡ some (touch_range callback n d i w)
  unfolding each_page walk_page touch_range
  touch_range-each_page zero d i w le = refl
  touch_range-each_page (suc n) d i w le =
      let i_mod : i % 512 ≡ i = omega arith in
      rw i_mod (touch_range-each_page n d (i + 1) (touch callback d i w) (omega arith))

  module _ (b n x c : ℕ) (u : Walk K) where
    pages-none : walk_page callback flags b c x u ≡ none → pages b (suc n) c x u ≡ none
    unfolding each_page
    pages-none e = rw e refl

    pages-some :
        (v : Walk K)
        → walk_page callback flags b c x u ≡ some v
        → pages b (suc n) c x u ≡ pages b n c (x + 1) v
    unfolding each_page
    pages-some v e = rw e refl

  module _ (b : ℕ) (lt : b < 3) where
    abbrev pub S : ℕ
    S = span (suc b)

    module _ (d i : ℕ) (li : i < 512) where
      step_none :
          (n x : ℕ) (w : Walk K)
          → x < S
          → access_to_child_dir w d i flags ≡ none
          → pages (suc b) (suc n) d (i * S + x) w ≡ none
      unfolding each_page walk_page
      step_none n x w lx e = rw (span-index b i x lt li lx, e) refl

      step_some :
          (n x c : ℕ) (w u : Walk K)
          → x < S
          → access_to_child_dir w d i flags ≡ some (c, u)
          → pages (suc b) (suc n) d (i * S + x) w
            ≡ (walk_page callback flags b c x u >>= λ v. pages (suc b) n d (i * S + x + 1) v)
      unfolding each_page walk_page
      step_some n x c w u lx e =
          rw (span-index b i x lt li lx, e, walk_page-whole b i c x u (omega arith)) refl

      -- The first page under the entry, and then the others by `rest`.
      first_then :
          (n x : ℕ) (o : Owner) (w : Walk K)
          → Owned o w
          → o.rank d ≡ suc (suc b)
          → x < S
          → ((c : ℕ) (o' : Owner) (v : Walk K)
              → Owned o' v
              → o'.rank d ≡ suc (suc b)
              → access_to_child_dir v d i flags ≡ some (c, v)
              → pages b n c (x + 1) v ≡ pages (suc b) n d (i * S + x + 1) v)
          → (access_to_child_dir w d i flags >>= λ r. pages b (suc n) r.0 x r.1)
            ≡ pages (suc b) (suc n) d (i * S + x) w
      first_then n x o w h r lx rest =
          elim (access_to_child_dir-ChildResult o w d b i flags h r li small) [
            | ChildResult.panics e ↦ rw (e, step_none n x w lx e) refl
            | ChildResult.opens c u o' e k ↦
                rw (e, step_some n x c w u lx e)
                  (elim (walk_page-Walked callback flags small b c x o' u k.owned k.rank_c) [
                    | Walked.panics e' ↦ pages-none b n x c u e' ∙ rw e' refl
                    | Walked.ends v o'' e' k' ↦
                        let r' = (k.grows d (λ z. omega (arith, r, z))).0 ∙ r in
                        let r'' = (k'.grows d (λ z. omega (arith, r', z))).0 ∙ r' in
                        let t = k'.inner d b i r' k.entry_ne in
                        let there =
                          access-there v d i c (λ z. k.entry_ne (sym t ∙ z))
                            (ap frame_of t ∙ k.entry_c) in
                        pages-some b n x c u v e' ∙ rest c o'' v k'.owned r'' there ∙ rw e' refl
                  ])
          ]

      pub open_then_pages :
          (n x : ℕ) (o : Owner) (w : Walk K)
          → Owned o w
          → o.rank d ≡ suc (suc b)
          → x + n < S
          → (access_to_child_dir w d i flags >>= λ r. pages b (suc n) r.0 x r.1)
            ≡ pages (suc b) (suc n) d (i * S + x) w
      unfolding each_page
      open_then_pages zero x o w h r lx =
          first_then zero x o w h r (omega arith) (λ c o' v h' r' e. refl)
      open_then_pages (suc m) x o w h r lx =
          first_then (suc m) x o w h r (omega arith) (λ c o' v h' r' e.
            let start : i * S + (x + 1) ≡ i * S + x + 1 = omega arith in
            let again : (access_to_child_dir v d i flags >>= λ q. pages b (suc m) q.0 (x + 1) q.1)
                ≡ pages b (suc m) c (x + 1) v =
              rw e refl in
            sym again
            ∙ open_then_pages m (x + 1) o' v h' r' (omega arith)
            ∙ ap (λ t. pages (suc b) (suc m) d t v) start)
