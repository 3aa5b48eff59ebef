-- ===== src/Paging/Refine.antt =====
-- `processPages` of kernel/paging.cpp against its specification: a map from pages to entries, over which
-- the callback runs page by page. It returns if there are pages of memory for the tables.
use shmdos.Prelude.{
  ℕ, zero, suc, ◌+◌, ◌-◌, ◌*◌, ◌/◌, ◌%◌, ◌^◌, ◌≤◌, ◌<◌, ◌≡◌, refl, sym, ap, ◌∙◌, ◌⊎◌, inl, inr,
  ◌==◌, Bool, ◌||◌, Bool-cases, ==_iff, Option, none, some, update, arith,
}
use shmdos.Paging.Walk.{Walk, touch, is_present, walk_page, each_page, process_pages, span}
use shmdos.Paging.Owned.{Owner, Owned, Opened, ChildResult}
use shmdos.Paging.Opening.{access_to_child_dir-ChildResult}
use shmdos.Paging.Spans.{span-root}
use shmdos.Paging.Lookup.{lookup, On, On-child}
use shmdos.Paging.Effect.{Effect, Effect-touch}
use shmdos.Paging.Mapping.{Effect-Opened}
use shmdos.Paging.Range.{process_pages-each_page}

-- What the callback has captured, and whether an entry that it was given was present, as in a walk.
pub record PageMap (K : Type 0) : Type 0 where
  pub entry : ℕ → ℕ
  pub kept : K
  pub shootdown : Bool

-- The tables under the root hold the entries of the map, for all pages of 48 bits of addresses.
pub record Shows {K : Type 0} (o : Owner) (root : ℕ) (w : Walk K) (a : PageMap K) : Type 0 where
  pub owned : Owned o w
  pub rank : o.rank root ≡ 4
  pub prefix : o.prefix root ≡ 0
  pub entries : (q : ℕ) → q < 2 ^ 36 → lookup 3 root q w ≡ a.entry q
  pub kept : w.kept ≡ a.kept
  pub shootdown : w.shootdown ≡ a.shootdown

module _ {K : Type 0} (callback : K → ℕ → K × ℕ) where
  abbrev pub apply_page : ℕ → PageMap K → PageMap K
  apply_page p a = record {
    entry = update a.entry p (callback a.kept (a.entry p)).1;
    kept = (callback a.kept (a.entry p)).0;
    shootdown = a.shootdown || is_present (a.entry p);
  }

  unfoldable pub apply_range : (count page : ℕ) → PageMap K → PageMap K
  apply_range zero p a = a
  apply_range (suc n) p a = apply_range n (p + 1) (apply_page p a)

  module _ (flags : ℕ) (small : flags < 4096) where
    data Affects (o : Owner) (w : Walk K) (d b p : ℕ) (r : Option (Walk K)) : Type 0 where
      panics : r ≡ none → Affects o w d b p r
      ends :
          (v : Walk K) (o' : Owner)
          → r ≡ some v
          → Effect callback o o' w v d b p
          → Affects o w d b p r

    walk_page-Affects :
        (b d p : ℕ) (o : Owner) (w : Walk K)
        → b < 4
        → Owned o w
        → o.rank d ≡ suc b
        → On o d b p
        → Affects o w d b p (walk_page callback flags b d p w)
    unfolding walk_page
    walk_page-Affects zero d p o w lt h r on =
        Affects.ends (touch callback d (p % 512) w) o refl (Effect-touch callback o w d p h r on)
    walk_page-Affects (suc b) d p o w lt h r on =
        elim (access_to_child_dir-ChildResult o w d b (p / span (suc b) % 512) flags h r
          (omega arith) small) [
            | ChildResult.panics e ↦ Affects.panics (rw e refl)
            | ChildResult.opens c u o' e k ↦ rw e (
                above c u o' k
                  (walk_page-Affects b c p o' u (omega arith) k.owned k.rank_c (child_On c u o' k)))
          ]
      where
        child_On :
            (c : ℕ) (u : Walk K) (o' : Owner)
            → Opened o o' w u d b (p / span (suc b) % 512) c
            → On o' c b p
        child_On c u o' k =
            let grown = k.grows d (λ z. omega (arith, r, z)) in
            On-child o' d c b p (omega arith)
              (ap (λ t. t * 512 + p / span (suc b) % 512) grown.1 ∙ on)
              (k.prefix_c ∙ ap (λ t. t * 512 + p / span (suc b) % 512) (sym grown.1))

        above :
            (c : ℕ) (u : Walk K) (o' : Owner)
            → Opened o o' w u d b (p / span (suc b) % 512) c
            → {x : Option (Walk K)} → Affects o' u c b p x
            → Affects o w d (suc b) p x
        above c u o' k (Affects.panics e) = Affects.panics e
        above c u o' k (Affects.ends v o'' e f) =
            Affects.ends v o'' e
              (Effect-Opened callback o o' o'' w u v d b c p (omega arith) h r on k f)

    -- One page of the specification.
    Shows-Effect :
        (root p : ℕ) (o o' : Owner) (w v : Walk K) (a : PageMap K)
        → p < 2 ^ 36
        → Shows o root w a
        → Effect callback o o' w v root 3 p
        → Shows o' root v (apply_page p a)
    Shows-Effect root p o o' w v a lt h f = record {
      owned = f.stable.owned;
      rank = grown.0 ∙ h.rank;
      prefix = grown.1 ∙ h.prefix;
      entries = entries;
      kept = f.captured ∙ at_entry (λ k x. (callback k x).0);
      shootdown =
          f.present
          ∙ ap (λ x. w.shootdown || is_present x) (h.entries p lt)
          ∙ ap (λ s. s || is_present (a.entry p)) h.shootdown;
    }
      where
        grown : (o'.rank root ≡ o.rank root) × (o'.prefix root ≡ o.prefix root)
        grown = f.stable.grows root (λ z. omega (arith, h.rank, z))

        at_entry :
            {B : Type 0} (g : K → ℕ → B) → g w.kept (lookup 3 root p w) ≡ g a.kept (a.entry p)
        at_entry g = ap (λ k. g k (lookup 3 root p w)) h.kept ∙ ap (g a.kept) (h.entries p lt)

        entries : (q : ℕ) → q < 2 ^ 36 → lookup 3 root q v ≡ (apply_page p a).entry q
        entries q lt_q = elim (Bool-cases (q == p)) [
          | inl same ↦
              let e = (==_iff q p).0 same in
              rw same (ap (λ t. lookup 3 root t v) e ∙ f.here ∙ at_entry (λ k x. (callback k x).1))
          | inr other ↦ rw other (
              f.others q (λ z. ground (arith, other, z))
                (ap (λ t. t * 512 + q / span 3 % 512) h.prefix ∙ span-root q lt_q)
              ∙ h.entries q lt_q)
        ]

    -- A walk ends in a panic, or in tables that show what the specification gives.
    abbrev pub Refines : (root : ℕ) → Option (Walk K) → PageMap K → Type 0
    Refines root r a = (r ≡ none) ⊎ ((v : Walk K) × (o : Owner) × (r ≡ some v) × Shows o root v a)

    each_page-Refines :
        (n root p : ℕ) (o : Owner) (w : Walk K) (a : PageMap K)
        → p + n ≤ 2 ^ 36
        → Shows o root w a
        → Refines root (each_page callback flags 3 n root p w) (apply_range n p a)
    unfolding each_page apply_range
    each_page-Refines zero root p o w a le h = inr (w, o, refl, h)
    each_page-Refines (suc n) root p o w a le h =
        elim (walk_page-Affects 3 root p o w (omega arith) h.owned h.rank on_root) [
          | Affects.panics e ↦ inl (rw e refl)
          | Affects.ends v o' e f ↦ rw e (
              each_page-Refines n root (p + 1) o' v (apply_page p a) (omega arith)
                (Shows-Effect root p o o' w v a (omega arith) h f))
        ]
      where
        on_root : On o root 3 p
        on_root = ap (λ t. t * 512 + p / span 3 % 512) h.prefix ∙ span-root p (omega arith)

    -- For a range of at least one byte that does not leave the 48 bits of addresses, in a state whose
    -- tables show a map: the walk over the range panics, or it leaves tables that show the map with the
    -- callback run on the entries of the pages of the range, in their order, and no other entry changed,
    -- and with what the callback has captured and `needShootdown` as in that run.
    pub process_pages-Refines :
        (root base size : ℕ) (o : Owner) (w : Walk K) (a : PageMap K)
        → Shows o root w a
        → 0 < size
        → base % 2 ^ 48 + size ≤ 2 ^ 48
        → Refines root (process_pages callback flags root base size w) (
            apply_range
              ((base % 2 ^ 48 + size + 4095) / 4096 - base % 2 ^ 48 / 4096)
              (base % 2 ^ 48 / 4096)
              a)
    process_pages-Refines root base size o w a h some_size le =
        rw
          (process_pages-each_page callback flags small root base size o w h.owned h.rank some_size
            le)
          (each_page-Refines _ root (base % 2 ^ 48 / 4096) o w a (omega arith) h)
