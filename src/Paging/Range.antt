-- ===== src/Paging/Range.antt =====
-- `processPagesLevel` of kernel/paging.cpp walks to each page of its range, in their order.
use shmdos.Prelude.{
  ℕ, zero, suc, ◌+◌, ◌-◌, ◌*◌, ◌/◌, ◌%◌, ◌^◌, ◌≤◌, ◌<◌, ◌≡◌, ◌≢◌, refl, sym, ap, ◌∙◌, inl, inr,
  ◌==◌, ltb, false, Bool-cases, ==_iff, Option, arith,
}
use shmdos.Paging.Walk.{
  Walk, ◌>>=◌, access_to_child_dir, visit, visit_all, visit_last, visit_range, first_limit,
  process_pages_level, process_pages, each_page, span, Below, last_page,
}
use shmdos.Paging.Owned.{Owner, Owned, ChildResult}
use shmdos.Paging.Opening.{access_to_child_dir-ChildResult}
use shmdos.Paging.Stable.{Walked}
use shmdos.Paging.Spans.{span-Within, span-Across, span-own, span-table, span-top}
use shmdos.Paging.Whole.{
  pages, each_page-add, each_page-Walked, Kept-rank, touch_range-each_page, open_then_pages,
}

module _ {K : Type 0} (callback : K → ℕ → K × ℕ) (flags : ℕ) (small : flags < 4096) where
  abbrev each_pages : (b count d page : ℕ) → Walk K → Option (Walk K)
  each_pages = pages callback flags small

  -- A part of the range, and what comes behind it.
  bind-each_pages :
      (b m n d p : ℕ) (o : Owner) (w : Walk K) (r : Option (Walk K)) (f : Walk K → Option (Walk K))
      → Owned o w
      → o.rank d ≡ suc b
      → r ≡ each_pages b m d p w
      → ((o' : Owner) (u : Walk K)
          → Owned o' u
          → o'.rank d ≡ suc b
          → f u ≡ each_pages b n d (p + m) u)
      → (r >>= f) ≡ each_pages b (m + n) d p w
  bind-each_pages b m n d p o w r f h rank e next =
      rw (e, each_page-add callback flags small b m n d p w)
        (elim (each_page-Walked callback flags small b m d p o w h rank) [
          | Walked.panics e' ↦ rw e' refl
          | Walked.ends u o' e' k ↦
              rw e' (next o' u k.owned (Kept-rank callback flags small k rank))
        ])

  module _ (b : ℕ) (lt : b < 3) (go : Below callback flags)
      (go-each_pages : (d s e : ℕ) (o : Owner) (w : Walk K)
        → Owned o w
        → o.rank d ≡ suc b
        → s ≤ e
        → e < span (suc b)
        → go d s e w ≡ each_pages b (e + 1 - s) d s w) where
    abbrev S : ℕ
    S = span (suc b)

    visit-each_pages :
        (d i x y : ℕ) (o : Owner) (w : Walk K)
        → Owned o w
        → o.rank d ≡ suc (suc b)
        → i < 512
        → x ≤ y
        → y < S
        → visit callback flags go d i x y w ≡ each_pages (suc b) (y + 1 - x) d (i * S + x) w
    unfolding visit
    visit-each_pages d i x y o w h r li le ly =
        let count : y + 1 - x ≡ suc (y - x) = omega arith in
        rw count (
          into (access_to_child_dir-ChildResult o w d b i flags h r li small)
          ∙ open_then_pages callback flags small b lt d i li (y - x) x o w h r (omega arith))
      where
        into :
            ChildResult o w d b i flags
            → (access_to_child_dir w d i flags >>= λ q. go q.0 x y q.1)
              ≡ (access_to_child_dir w d i flags >>= λ q. each_pages b (suc (y - x)) q.0 x q.1)
        into (ChildResult.panics e) = rw e refl
        into (ChildResult.opens c u o' e k) =
            let count : y + 1 - x ≡ suc (y - x) = omega arith in
            rw e (
              go-each_pages c x y o' u k.owned k.rank_c le ly
              ∙ ap (λ t. each_pages b t c x u) count)

    visit_all-each_pages :
        (n d i : ℕ) (o : Owner) (w : Walk K)
        → Owned o w
        → o.rank d ≡ suc (suc b)
        → i + n ≤ 512
        → visit_all callback flags go S n d i w ≡ each_pages (suc b) (n * S) d (i * S) w
    unfolding visit_all each_page
    visit_all-each_pages zero d i o w h r le =
        let none_left : 0 * S ≡ 0 = omega arith in rw none_left refl
    visit_all-each_pages (suc n) d i o w h r le =
        let pos_S = span-own b lt in
        let count : S - 1 + 1 - 0 ≡ S = omega arith in
        let start : i * S + 0 ≡ i * S = omega arith in
        let all_pages : suc n * S ≡ S + n * S = omega arith in
        let next : i * S + S ≡ (i + 1) * S = omega arith in
        rw all_pages (
          bind-each_pages (suc b) S (n * S) d (i * S) o w _ _ h r
            (visit-each_pages d i 0 (S - 1) o w h r (omega arith) (omega arith) (omega arith)
              ∙ ap (λ t. each_pages (suc b) t d (i * S + 0) w) count
              ∙ ap (λ t. each_pages (suc b) S d t w) start)
            (λ o' u h' r'.
              visit_all-each_pages n d (i + 1) o' u h' r' (omega arith)
              ∙ ap (λ t. each_pages (suc b) (n * S) d t u) (sym next)))

    visit_last-each_pages :
        (d e : ℕ) (o : Owner) (w : Walk K)
        → Owned o w
        → o.rank d ≡ suc (suc b)
        → ((e + 1) % S ≢ 0 → ((e + 1) / S < 512) × (e % S + 1 ≡ (e + 1) % S) × (e % S < S))
        → visit_last callback flags go S d e w
          ≡ each_pages (suc b) ((e + 1) % S) d ((e + 1) / S * S) w
    unfolding visit_last each_page
    visit_last-each_pages d e o w h r rest = elim (Bool-cases ((e + 1) % S == 0)) [
      | inl whole ↦
          let z = (==_iff ((e + 1) % S) 0).0 whole in
          rw whole (ap (λ t. each_pages (suc b) t d ((e + 1) / S * S) w) (sym z))
      | inr part ↦
          let (index, count, inside) = rest (λ z. ground (arith, part, z)) in
          let pages : e % S + 1 - 0 ≡ (e + 1) % S = omega arith in
          let start : (e + 1) / S * S + 0 ≡ (e + 1) / S * S = omega arith in
          rw part (
            visit-each_pages d ((e + 1) / S) 0 (e % S) o w h r index (omega arith) inside
            ∙ ap (λ t. each_pages (suc b) t d ((e + 1) / S * S + 0) w) pages
            ∙ ap (λ t. each_pages (suc b) ((e + 1) % S) d t w) start)
    ]

    visit_range-each_pages :
        (d s e : ℕ) (o : Owner) (w : Walk K)
        → Owned o w
        → o.rank d ≡ suc (suc b)
        → s ≤ e
        → e < span (suc (suc b))
        → visit_range callback flags go S d s e w ≡ each_pages (suc b) (e + 1 - s) d s w
    unfolding visit_range
    visit_range-each_pages d s e o w h r le le' = elim (Bool-cases (ltb e (first_limit S s))) [
      | inl one ↦
          let f = span-Within b s e lt le le' (ground (arith, one)) in
          rw one (
            visit-each_pages d (s / S) (s % S) (e % S) o w h r f.index f.ordered f.inside
            ∙ ap (λ t. each_pages (suc b) t d (s / S * S + s % S) w) f.count
            ∙ ap (λ t. each_pages (suc b) (e + 1 - s) d t w) f.from_start)
      | inr more ↦
          let f = span-Across b s e lt le le' (ground (arith, more)) in
          let first = first_limit S s / S in
          let whole = (e + 1) / S - first in
          rw more (
            bind-each_pages (suc b) (S - 1 + 1 - s % S) (whole * S + (e + 1) % S) d s o w _ _ h r
              (visit-each_pages d (s / S) (s % S) (S - 1) o w h r f.index f.head_ordered
                  f.head_inside
                ∙ ap (λ t. each_pages (suc b) (S - 1 + 1 - s % S) d t w) f.from_start)
              (λ o' u h' r'.
                bind-each_pages (suc b) (whole * S) ((e + 1) % S) d (first * S) o' u _ _ h' r'
                  (visit_all-each_pages whole d first o' u h' r' f.whole)
                  (λ o'' v h'' r''.
                    visit_last-each_pages d e o'' v h'' r'' f.rest
                    ∙ ap (λ t. each_pages (suc b) ((e + 1) % S) d t v) (sym f.whole_end))
                ∙ ap (λ t. each_pages (suc b) (whole * S + (e + 1) % S) d t u) (sym f.head_end))
            ∙ ap (λ t. each_pages (suc b) t d s w) f.total)
    ]

  pub process_pages_level-each_pages :
      (b d s e : ℕ) (o : Owner) (w : Walk K)
      → b < 4
      → Owned o w
      → o.rank d ≡ suc b
      → s ≤ e
      → e < span (suc b)
      → process_pages_level callback flags b d s e w ≡ each_pages b (e + 1 - s) d s w
  unfolding process_pages_level
  process_pages_level-each_pages zero d s e o w lt h r le le' =
      sym (touch_range-each_page callback flags small (e + 1 - s) d s w (span-table s e le le'))
  process_pages_level-each_pages (suc b) d s e o w lt h r le le' =
      visit_range-each_pages b (omega arith) (process_pages_level callback flags b)
        (λ d' s' e' o' w' h' r' l l'.
          process_pages_level-each_pages b d' s' e' o' w' (omega arith) h' r' l l')
        d s e o w h r le le'

  -- For a range that does not leave the 48 bits of addresses, in a state whose tables are owned: walking
  -- over it at once, with its panics, is walking from the root to each of its pages in turn.
  pub process_pages-each_page :
      (root base size : ℕ) (o : Owner) (w : Walk K)
      → Owned o w
      → o.rank root ≡ 4
      → 0 < size
      → base % 2 ^ 48 + size ≤ 2 ^ 48
      → process_pages callback flags root base size w
        ≡ each_page callback flags 3
            ((base % 2 ^ 48 + size + 4095) / 4096 - base % 2 ^ 48 / 4096)
            root
            (base % 2 ^ 48 / 4096)
            w
  unfolding process_pages
  process_pages-each_page root base size o w h r some_size le =
      let ne : (size == 0) ≡ false = ground (arith, some_size) in
      let end : last_page base size ≡ (base % 2 ^ 48 + size + 4095) / 4096 - 1 = omega arith in
      let count : (base % 2 ^ 48 + size + 4095) / 4096 - 1 + 1 - base % 2 ^ 48 / 4096
          ≡ (base % 2 ^ 48 + size + 4095) / 4096 - base % 2 ^ 48 / 4096 =
        omega arith in
      rw (ne, end)
        (process_pages_level-each_pages 3 root (base % 2 ^ 48 / 4096)
            ((base % 2 ^ 48 + size + 4095) / 4096 - 1) o w (omega arith) h r (omega arith)
            (span-top ((base % 2 ^ 48 + size + 4095) / 4096 - 1) (omega arith))
          ∙ ap (λ t. each_page callback flags 3 t root (base % 2 ^ 48 / 4096) w) count)
