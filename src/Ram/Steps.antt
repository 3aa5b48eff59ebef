-- ===== src/Ram/Steps.antt =====
-- The atomic steps of threads that take pages from the list and give them back: `allocPagePtr` and
-- `freePagePtr` of kernel/phmem.cpp, with what the holders of pages write to them in between.
use shmdos.Prelude.{ℕ, ◌+◌, ◌<◌, ◌≡◌, ◌≢◌, Bool, true, false, update}
use shmdos.Ram.{Ram, word_mod, compare_exchange, set_link}

-- How far a thread is: what it has seen of the header, and the page that it gives back.
pub data Thread : Type 0 where
  idle : Thread
  alloc_head : (head : ℕ) → Thread
  alloc_count : (head count : ℕ) → Thread
  alloc_link : (head count next : ℕ) → Thread
  free_page : (page : ℕ) → Thread
  free_head : (page head : ℕ) → Thread
  free_count : (page head count : ℕ) → Thread
  free_link : (page head count : ℕ) → Thread

-- `user` says which pages are in the hands of a user.
pub record State : Type 0 where
  pub ram : Ram
  pub thread : ℕ → Thread
  pub user : ℕ → Bool

abbrev pub move : State → ℕ → Thread → State
move s t to = record s { thread = update s.thread t to }

-- `stop` is `m_pEndList`. There are fewer changes of the header than its count has values.
pub data Step (stop : ℕ) : State → State → Type 0 where
  see_head :
      {s : State} (t : ℕ) → s.thread t ≡ idle → Step stop s (move s t (alloc_head s.ram.head))
  see_count :
      {s : State} (t h : ℕ)
      → s.thread t ≡ alloc_head h
      → Step stop s (move s t (alloc_count h s.ram.count))
  see_link :
      {s : State} (t h c : ℕ)
      → s.thread t ≡ alloc_count h c
      → h ≢ stop
      → Step stop s (move s t (alloc_link h c (s.ram.link h)))
  take :
      {s : State} (t h c n : ℕ)
      → s.thread t ≡ alloc_link h c n
      → (compare_exchange s.ram h c n).0 ≡ true
      → c + 1 < word_mod
      → Step stop s (record s {
        ram = (compare_exchange s.ram h c n).1;
        thread = update s.thread t idle;
        user = update s.user h true;
      })
  take_again :
      {s : State} (t h c n : ℕ)
      → s.thread t ≡ alloc_link h c n
      → (compare_exchange s.ram h c n).0 ≡ false
      → Step stop s (move s t idle)
  write :
      {s : State} (p v : ℕ) → s.user p ≡ true → Step stop s (record s { ram = set_link s.ram p v })
  release :
      {s : State} (t p : ℕ)
      → s.thread t ≡ idle
      → s.user p ≡ true
      → Step stop s
          (record s { thread = update s.thread t (free_page p); user = update s.user p false })
  see_free_head :
      {s : State} (t p : ℕ)
      → s.thread t ≡ free_page p
      → Step stop s (move s t (free_head p s.ram.head))
  see_free_count :
      {s : State} (t p h : ℕ)
      → s.thread t ≡ free_head p h
      → Step stop s (move s t (free_count p h s.ram.count))
  store :
      {s : State} (t p h c : ℕ)
      → s.thread t ≡ free_count p h c
      → Step stop s
          (record s { ram = set_link s.ram p h; thread = update s.thread t (free_link p h c) })
  give :
      {s : State} (t p h c : ℕ)
      → s.thread t ≡ free_link p h c
      → (compare_exchange s.ram h c p).0 ≡ true
      → c + 1 < word_mod
      → Step stop s
          (record s { ram = (compare_exchange s.ram h c p).1; thread = update s.thread t idle })
  give_again :
      {s : State} (t p h c : ℕ)
      → s.thread t ≡ free_link p h c
      → (compare_exchange s.ram h c p).0 ≡ false
      → Step stop s (move s t (free_page p))

abbrev pub start : Ram → State
start r = record { ram = r; thread = λ t. idle; user = λ p. false }

pub data Reachable (stop : ℕ) (r : Ram) : State → Type 0 where
  begin : Reachable stop r (start r)
  after : {s u : State} → Reachable stop r s → Step stop s u → Reachable stop r u
