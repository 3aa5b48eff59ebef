-- ===== src/Paging/Walk.antt =====
-- The walks of kernel/paging.cpp over the tables of four levels: `accessToChildDir`, `processPagesLevel`,
-- `processPages` and `processPage` up to the flush of the TLB. A table is named by the number of its
-- page of physical memory, and `below` levels stand below it. A panic is `none`.
use shmdos.Prelude.{
  ℕ, zero, suc, ◌+◌, ◌-◌, ◌*◌, ◌/◌, ◌%◌, ◌^◌, ◌==◌, ltb, if◌then◌else◌, Bool, ◌||◌, Option, none,
  some, List, [], ◌∷◌, update,
}

-- The tables by frame and index, the free pages of the RAM allocator, what the callback has captured,
-- and `needShootdown`.
pub record Walk (K : Type 0) : Type 0 where
  pub table : ℕ → ℕ → ℕ
  pub frames : List ℕ
  pub kept : K
  pub shootdown : Bool

abbrev pub frame_mod : ℕ
frame_mod = 2 ^ 36

-- `CPU_PHYSICAL_ADDRESS_MASK & ~PAGE_MASK`, as the number of a page.
unfoldable pub frame_of : ℕ → ℕ
frame_of entry = entry / 4096 % frame_mod

unfoldable pub is_present : ℕ → Bool
is_present entry = entry % 2 == 1

-- The pages under one entry of a table.
unfoldable pub span : ℕ → ℕ
span zero = 1
span (suc below) = 512 * span below

infixl 5 ◌>>=◌
abbrev pub ◌>>=◌ : {A B : Type 0} → Option A → (A → Option B) → Option B
none >>= f = none
some a >>= f = f a

-- The first page that the first entry does not hold.
abbrev pub first_limit : (size start : ℕ) → ℕ
first_limit size start = (start + size) / size * size

abbrev pub address_mod : ℕ
address_mod = 2 ^ 48

abbrev pub word_mod : ℕ
word_mod = 2 ^ 64

abbrev pub last_page : (base size : ℕ) → ℕ
last_page base size =
    ((size + base % address_mod + 4095) % word_mod / 4096 + (word_mod - 1)) % word_mod

module _ {K : Type 0} where
  abbrev pub put : Walk K → ℕ → ℕ → ℕ → Walk K
  put w dir index value = record w { table = update w.table dir (update (w.table dir) index value) }

  -- `allocPage(true)`: a page of zeros.
  abbrev pub clear : Walk K → ℕ → Walk K
  clear w frame = record w { table = update w.table frame (λ i. 0) }

  -- The address of a page and flags in its low 12 bits have no bit in common, so `|` is a sum.
  unfoldable pub new_child : Walk K → (dir index flags : ℕ) → List ℕ → Option (ℕ × Walk K)
  unfolding frame_of
  new_child w dir index flags [] = none
  new_child w dir index flags (f ∷ fs) = some (
    frame_of (f * 4096 + flags),
    put (clear (record w { frames = fs }) f) dir index (f * 4096 + flags),
  )

  unfoldable pub access_to_child_dir : Walk K → (dir index flags : ℕ) → Option (ℕ × Walk K)
  access_to_child_dir w dir index flags =
      if w.table dir index == 0
      then (if flags == 0 then none else new_child w dir index flags w.frames)
      else some (frame_of (w.table dir index), w)

  -- The callback gets what it has captured and an entry.
  module _ (callback : K → ℕ → K × ℕ) where
    unfoldable pub touch : ℕ → ℕ → Walk K → Walk K
    touch dir index w =
        let (kept, value) = callback w.kept (w.table dir index) in
        record (put w dir index value) {
          kept = kept;
          shootdown = w.shootdown || is_present (w.table dir index);
        }

    unfoldable pub touch_range : (count dir index : ℕ) → Walk K → Walk K
    touch_range zero dir index w = w
    touch_range (suc n) dir index w = touch_range n dir (index + 1) (touch dir index w)

    module _ (flags : ℕ) where
      abbrev pub Below : Type 0
      Below = (dir first last : ℕ) → Walk K → Option (Walk K)

      -- The call for one entry of a table: into its child, over these pages of it.
      unfoldable pub visit : Below → (dir index first last : ℕ) → Walk K → Option (Walk K)
      visit go dir index first last w =
          access_to_child_dir w dir index flags >>= λ r. go r.0 first last r.1

      -- The loop over whole entries.
      unfoldable pub visit_all : Below → (size count dir index : ℕ) → Walk K → Option (Walk K)
      visit_all go size zero dir index w = some w
      visit_all go size (suc n) dir index w =
          visit go dir index 0 (size - 1) w >>= λ u. visit_all go size n dir (index + 1) u

      unfoldable pub visit_last : Below → (size dir end : ℕ) → Walk K → Option (Walk K)
      visit_last go size dir end w =
          if (end + 1) % size == 0 then some w else visit go dir ((end + 1) / size) 0 (end % size) w

      unfoldable pub visit_range : Below → (size dir start end : ℕ) → Walk K → Option (Walk K)
      visit_range go size dir start end w =
          if ltb end (first_limit size start)
          then visit go dir (start / size) (start % size) (end % size) w
          else visit go dir (start / size) (start % size) (size - 1) w >>= λ u.
              let first = first_limit size start / size in
              visit_all go size ((end + 1) / size - first) dir first u >>= λ v.
              visit_last go size dir end v

      unfoldable pub process_pages_level : (below : ℕ) → Below
      process_pages_level zero dir start end w = some (touch_range (end + 1 - start) dir start w)
      process_pages_level (suc below) dir start end w =
          visit_range (process_pages_level below) (span (suc below)) dir start end w

      unfoldable pub process_pages : (root base size : ℕ) → Walk K → Option (Walk K)
      process_pages root base size w =
          if size == 0
          then some w
          else process_pages_level 3 root (base % address_mod / 4096) (last_page base size) w

      -- The loop of `processPage`, for the page of a number.
      unfoldable pub walk_page : (below dir page : ℕ) → Walk K → Option (Walk K)
      walk_page zero dir page w = some (touch dir (page % 512) w)
      walk_page (suc below) dir page w =
          access_to_child_dir w dir (page / span (suc below) % 512) flags >>= λ r.
          walk_page below r.0 page r.1

      unfoldable pub process_page : (root base : ℕ) → Walk K → Option (Walk K)
      process_page root base w = walk_page 3 root (base / 4096) w

      -- One page after another.
      unfoldable pub each_page : (below count dir page : ℕ) → Walk K → Option (Walk K)
      each_page below zero dir page w = some w
      each_page below (suc n) dir page w =
          walk_page below dir page w >>= λ u. each_page below n dir (page + 1) u
