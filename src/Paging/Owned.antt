-- ===== src/Paging/Owned.antt =====
-- Which pages of memory are tables, and where in the tree: no page is a table twice, and free pages are
-- no tables. Opening a child keeps this.
use shmdos.Prelude.{
  ℕ, suc, ◌+◌, ◌*◌, ◌<◌, ◌≡◌, ◌≢◌, refl, ◌⊎◌, inl, inr, ◌==◌, false, Bool-cases, ==_iff, none, some,
  List, [], ◌∷◌, update, arith,
}
use shmdos.Paging.Walk.{Walk, frame_mod, frame_of, access_to_child_dir}

-- `rank` is the number of levels from a table down, itself included, and 0 for other pages; `prefix` the
-- number of the table among those of its rank.
pub record Owner : Type 0 where
  pub rank : ℕ → ℕ
  pub prefix : ℕ → ℕ

abbrev pub Apart : ℕ → List ℕ → Type 0
Apart f [] = Unit {0}
Apart f (g ∷ fs) = (g ≢ f) × Apart f fs

abbrev pub Free : Owner → List ℕ → Type 0
Free o [] = Unit {0}
Free o (f ∷ fs) = (f < frame_mod) × (o.rank f ≡ 0) × Apart f fs × Free o fs

abbrev pub claim : Owner → (frame rank prefix : ℕ) → Owner
claim o f r q = record { rank = update o.rank f r; prefix = update o.prefix f q }

abbrev pub Grows : Owner → Owner → Type 0
Grows o o' = (e : ℕ) → o.rank e ≢ 0 → (o'.rank e ≡ o.rank e) × (o'.prefix e ≡ o.prefix e)

module _ {K : Type 0} where
  pub record Owned (o : Owner) (w : Walk K) : Type 0 where
    pub child_rank :
        (d b i : ℕ)
        → o.rank d ≡ suc (suc b)
        → i < 512
        → w.table d i ≢ 0
        → o.rank (frame_of (w.table d i)) ≡ suc b
    pub child_prefix :
        (d b i : ℕ)
        → o.rank d ≡ suc (suc b)
        → i < 512
        → w.table d i ≢ 0
        → o.prefix (frame_of (w.table d i)) ≡ o.prefix d * 512 + i
    pub free : Free o w.frames

  -- What opening the child c at entry i of the table d does.
  pub record Opened (o o' : Owner) (w u : Walk K) (d b i c : ℕ) : Type 0 where
    pub owned : Owned o' u
    pub rank_c : o'.rank c ≡ suc b
    pub prefix_c : o'.prefix c ≡ o.prefix d * 512 + i
    pub entry_ne : u.table d i ≢ 0
    pub entry_c : frame_of (u.table d i) ≡ c
    pub grows : Grows o o'
    pub same : (e j : ℕ) → o.rank e ≢ 0 → (e ≢ d) ⊎ (j ≢ i) → u.table e j ≡ w.table e j
    pub stays : w.table d i ≢ 0 → u.table d i ≡ w.table d i
    pub kept_same : u.kept ≡ w.kept
    pub shootdown_same : u.shootdown ≡ w.shootdown
    pub blank : w.table d i ≡ 0 → (o.rank c ≡ 0) × ((j : ℕ) → u.table c j ≡ 0)

  pub data ChildResult (o : Owner) (w : Walk K) (d b i flags : ℕ) : Type 0 where
    panics : access_to_child_dir w d i flags ≡ none → ChildResult o w d b i flags
    opens :
        (c : ℕ) (u : Walk K) (o' : Owner)
        → access_to_child_dir w d i flags ≡ some (c, u)
        → Opened o o' w u d b i c
        → ChildResult o w d b i flags

pub frame_of-flags : (f flags : ℕ) → f < frame_mod → flags < 4096 → frame_of (f * 4096 + flags) ≡ f
unfolding frame_of
frame_of-flags f flags lt small = omega arith

pub Free-claim :
    (o : Owner) (f r q : ℕ) (fs : List ℕ) → Apart f fs → Free o fs → Free (claim o f r q) fs
Free-claim o f r q [] a h = tt
Free-claim o f r q (g ∷ fs) a h =
    let ne : (g == f) ≡ false = ground (arith, a.0) in
    (h.0, rw ne h.1, h.2, Free-claim o f r q fs a.1 h.3)

pub Grows-claim : (o : Owner) (f r q : ℕ) → o.rank f ≡ 0 → Grows o (claim o f r q)
Grows-claim o f r q zero_f e known = elim (Bool-cases (e == f)) [
  | inl same ↦ absurd (known (rw ((==_iff e f).0 same) zero_f))
  | inr other ↦ (rw other refl, rw other refl)
]
