-- ===== src/CLib/Text/Copy.antt =====
-- Copying a string is moving its bytes and the 0 behind them.
use shmdos.Prelude.{
  ℕ, zero, suc, ◌+◌, ◌≤◌, ◌<◌, ◌≡◌, ◌≢◌, refl, ap, ◌∙◌, ◌⊎◌, inl, inr, true, false, Option, none,
  some, arith, ◌==◌, Bool-cases,
}
use shmdos.CLib.Memory.{Memory, store}
use shmdos.CLib.Memory.Copy.{moved, moved-one, moved-moved}
use shmdos.CLib.Text.{kstrlen, kstrcpy, kstrcat, kstrncpy, copy_and_pad}

-- At the address stand n bytes other than 0 and then a 0.
abbrev pub IsText : Memory → ℕ → ℕ → Type 0
IsText m str n = ((i : ℕ) → i < n → m (str + i) ≢ 0) × (m (str + n) ≡ 0)

first_byte : (m : Memory) (str n : ℕ) → IsText m str (suc n) → (m str == 0) ≡ false
first_byte m str n t =
    let at : str + 0 ≡ str = omega arith in
    let ne : m str ≢ 0 = rw at at (t.0 0 (omega arith)) in ground (arith, ne)

last_byte : (m : Memory) (str : ℕ) → IsText m str 0 → (m str == 0) ≡ true
last_byte m str t = let at : str + 0 ≡ str = omega arith in ground (arith, rw at at t.1)

IsText-tail : (m : Memory) (str n : ℕ) → IsText m str (suc n) → IsText m (str + 1) n
IsText-tail m str n t = (tail_byte, tail_end)
  where
    tail_byte : (i : ℕ) → i < n → m (str + 1 + i) ≢ 0
    tail_byte i lt =
        let at : str + 1 + i ≡ str + (i + 1) = omega arith in rw at (t.0 (i + 1) (omega arith))

    tail_end : m (str + 1 + n) ≡ 0
    tail_end = let at : str + 1 + n ≡ str + suc n = omega arith in rw at t.1

-- For a string of n bytes, more than n rounds are enough, and the length is n.
pub kstrlen-IsText :
    (fuel : ℕ) (m : Memory) (str n : ℕ) → IsText m str n → n < fuel → kstrlen fuel m str ≡ some n
unfolding kstrlen
kstrlen-IsText zero m str n t lt = absurd (omega arith)
kstrlen-IsText (suc f) m str zero t lt = rw (last_byte m str t) refl
kstrlen-IsText (suc f) m str (suc n) t lt =
    let rest = kstrlen-IsText f m (str + 1) n (IsText-tail m str n t) (omega arith) in
    rw (first_byte m str n t, rest) refl

-- A write before the string, or behind it, leaves the string.
store-IsText :
    (m : Memory) (a v str n : ℕ)
    → (a < str) ⊎ (str + n < a)
    → IsText m str n
    → IsText (store m a v) str n
store-IsText m a v str n away t = (λ i lt. other i lt, ending)
  where
    other : (i : ℕ) → i < n → store m a v (str + i) ≢ 0
    other i lt = let ne : (str + i == a) ≡ false = ground (arith, away) in rw ne (t.0 i lt)

    ending : store m a v (str + n) ≡ 0
    ending = let ne : (str + n == a) ≡ false = ground (arith, away) in rw ne t.1

same_byte : (m : Memory) (dst src : ℕ) → store m dst (m src) src ≡ m src
same_byte m dst src = elim (Bool-cases (src == dst)) [
  | inl same ↦ rw same refl
  | inr other ↦ rw other refl
]

-- For a string of n bytes to a place that the copy does not reach before it has read it, more than n
-- rounds are enough: the n bytes and the 0 behind them are moved, and nothing else changes.
pub kstrcpy-moved :
    (fuel : ℕ) (m : Memory) (dst src n : ℕ)
    → IsText m src n
    → n < fuel
    → (dst ≤ src) ⊎ (src + (1 + n) ≤ dst)
    → kstrcpy fuel m dst src ≡ some (moved (1 + n) m dst src)
unfolding kstrcpy
kstrcpy-moved zero m dst src n t lt away = absurd (omega arith)
kstrcpy-moved (suc f) m dst src zero t lt away =
    let byte = same_byte m dst src in
    let done : (store m dst (m src) src == 0) ≡ true = rw byte (last_byte m src t) in
    rw done (ap some (moved-one m dst src ∙ ap (λ k. moved k m dst src) (omega arith)))
kstrcpy-moved (suc f) m dst src (suc n) t lt away =
    let byte = same_byte m dst src in
    let more : (store m dst (m src) src == 0) ≡ false = rw byte (first_byte m src n t) in
    let rest =
      kstrcpy-moved f (store m dst (m src)) (dst + 1) (src + 1) n
        (store-IsText m dst (m src) (src + 1) n (omega arith) (IsText-tail m src n t)) (omega arith)
        (omega arith) in
    rw (more, rest)
      (ap some (
        ap (λ u. moved (1 + n) u (dst + 1) (src + 1)) (moved-one m dst src)
        ∙ moved-moved 1 (1 + n) m dst src (omega arith)
        ∙ ap (λ k. moved k m dst src) (omega arith)))

-- For strings of k and n bytes, the second of which the copy does not reach before it has read it,
-- more rounds than either length are enough: the second with its 0 stands at the end of the first.
pub kstrcat-moved :
    (fuel : ℕ) (m : Memory) (str1 str2 k n : ℕ)
    → IsText m str1 k
    → IsText m str2 n
    → k < fuel
    → n < fuel
    → (str1 + k ≤ str2) ⊎ (str2 + (1 + n) ≤ str1 + k)
    → kstrcat fuel m str1 str2 ≡ some (moved (1 + n) m (str1 + k) str2)
unfolding kstrcat
kstrcat-moved fuel m str1 str2 k n t u lk ln away =
    ap then_copy (kstrlen-IsText fuel m str1 k t lk)
    ∙ kstrcpy-moved fuel m (str1 + k) str2 n u ln away
  where
    then_copy : Option ℕ → Option Memory
    then_copy r = elim r [ none ↦ none | some d ↦ kstrcpy fuel m (str1 + d) str2 ]

-- For an empty string and two bytes of room, a copy to another place takes the byte behind the 0 of
-- the string along, where a 0 should stand.
pub kstrncpy-empty :
    (m : Memory) (dst src : ℕ)
    → m src ≡ 0
    → m (src + 1) ≢ 0
    → dst ≢ src + 1
    → kstrncpy m dst src 2 (dst + 1) ≡ m (src + 1)
unfolding kstrncpy copy_and_pad
kstrncpy-empty m dst src empty more apart =
    let ne : (src + 1 == dst) ≡ false = ground (arith, apart) in
    let nz : (m (src + 1) == 0) ≡ false = ground (arith, more) in
    let here : (dst + 1 == dst + 1) ≡ true = ground arith in rw (ne, nz, here) refl
