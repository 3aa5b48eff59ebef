-- ===== src/CLib/Memory/Copy.antt =====
-- The copies move a range as if all of it were read before any of it is written.
use shmdos.Prelude.{
  ℕ, zero, suc, ◌+◌, ◌-◌, ◌*◌, ◌/◌, ◌%◌, ◌≤◌, ◌≡◌, refl, sym, ap, ◌∙◌, ◌⊎◌, inl, inr, ◌&&◌, arith,
  ltb, leb, ◌==◌, Bool-cases, if◌then◌else◌,
}
use mathlib.Core.Path.{fun_ext}
use shmdos.CLib.Memory.{
  Memory, store, copy_word, copy_bytes, copy_words, copy_body, kmemcpy, copy_back, memmove,
}

-- The memory `m` with the `n` bytes from `src` on put at `dst`.
unfoldable pub moved : ℕ → Memory → ℕ → ℕ → Memory
moved n m dst src x = if leb dst x && ltb x (dst + n) then m (src + (x - dst)) else m x

-- A copy in ascending order reads no byte that it has written.
abbrev pub Ascends : ℕ → ℕ → ℕ → Type 0
Ascends n dst src = (dst ≤ src) ⊎ (src + n ≤ dst)

pub moved-moved :
    (a b : ℕ) (m : Memory) (dst src : ℕ)
    → Ascends (a + b) dst src
    → moved b (moved a m dst src) (dst + a) (src + a) ≡ moved (a + b) m dst src
unfolding moved
moved-moved a b m dst src ok = fun_ext λ x. ground arith

moved-zero : (m : Memory) (dst src : ℕ) → moved 0 m dst src ≡ m
unfolding moved
moved-zero m dst src = fun_ext λ x. ground arith

pub moved-one : (m : Memory) (dst src : ℕ) → store m dst (m src) ≡ moved 1 m dst src
unfolding moved
moved-one m dst src = fun_ext λ x. ground arith

-- A copy in descending order: the last byte first.
moved-last :
    (n : ℕ) (m : Memory) (dst src : ℕ)
    → src ≤ dst
    → moved n (store m (dst + n) (m (src + n))) dst src ≡ moved (suc n) m dst src
unfolding moved
moved-last n m dst src le = fun_ext λ x. ground arith

moved-word : (m : Memory) (dst src : ℕ) → copy_word m dst src ≡ moved 8 m dst src
unfolding moved
moved-word m dst src = refl

copy_bytes-moved :
    (n : ℕ) (m : Memory) (dst src : ℕ)
    → Ascends n dst src
    → copy_bytes n m dst src ≡ moved n m dst src
unfolding copy_bytes
copy_bytes-moved zero m dst src ok = sym (moved-zero m dst src)
copy_bytes-moved (suc n) m dst src ok =
    rw
      (
        moved-one m dst src,
        copy_bytes-moved n (moved 1 m dst src) (dst + 1) (src + 1) (omega arith),
      )
      (moved-moved 1 n m dst src (omega arith) ∙ ap (λ k. moved k m dst src) (omega arith))

copy_words-moved :
    (n : ℕ) (m : Memory) (dst src : ℕ)
    → Ascends (n * 8) dst src
    → copy_words n m dst src ≡ moved (n * 8) m dst src
unfolding copy_words
copy_words-moved zero m dst src ok = sym (moved-zero m dst src)
copy_words-moved (suc n) m dst src ok =
    rw
      (
        moved-word m dst src,
        copy_words-moved n (moved 8 m dst src) (dst + 8) (src + 8) (omega arith),
      )
      (moved-moved 8 (n * 8) m dst src (omega arith) ∙ ap (λ k. moved k m dst src) (omega arith))

copy_body-moved :
    (m : Memory) (dst src n : ℕ) → Ascends n dst src → copy_body m dst src n ≡ moved n m dst src
unfolding copy_body
copy_body-moved m dst src n ok =
    rw
      (
        copy_words-moved (n / 8) m dst src (omega arith),
        copy_bytes-moved (n % 8) (moved (n / 8 * 8) m dst src) (dst + n / 8 * 8) (src + n / 8 * 8)
            (omega arith),
      )
      (moved-moved (n / 8 * 8) (n % 8) m dst src (omega arith)
        ∙ ap (λ k. moved k m dst src) (omega arith))

-- Where the destination begins at or below the source, or behind its end, `kmemcpy` moves the
-- range, writes nothing else, and returns the destination, at every alignment.
pub kmemcpy-moved :
    (m : Memory) (dst src n : ℕ)
    → (dst ≤ src) ⊎ (src + n ≤ dst)
    → kmemcpy m dst src n ≡ (moved n m dst src, dst)
unfolding kmemcpy
kmemcpy-moved m dst src n ok = elim (Bool-cases (dst % 8 == 0)) [
  | inl aligned ↦ rw (aligned, copy_body-moved m dst src n ok)
  | inr odd ↦ rw odd (elim (Bool-cases (leb n (dst % 8))) [
    | inl short ↦ rw (short, copy_bytes-moved n m dst src ok)
    | inr long ↦
        let le : dst % 8 ≤ n = ground arith in
        rw
          (
            long,
            copy_bytes-moved (dst % 8) m dst src (omega arith),
            copy_body-moved (moved (dst % 8) m dst src) (dst + dst % 8) (src + dst % 8)
                (n - dst % 8) (omega arith),
            moved-moved (dst % 8) (n - dst % 8) m dst src (omega arith),
          )
          (ap (λ k. (moved k m dst src, dst)) (omega arith))
  ])
]

copy_back-moved :
    (n : ℕ) (m : Memory) (dst src : ℕ) → src ≤ dst → copy_back n m dst src ≡ moved n m dst src
unfolding copy_back
copy_back-moved zero m dst src le = sym (moved-zero m dst src)
copy_back-moved (suc n) m dst src le =
    copy_back-moved n (store m (dst + n) (m (src + n))) dst src le ∙ moved-last n m dst src le

-- `memmove` moves the range whether or not the two ranges overlap, writes nothing else, and returns
-- the destination.
pub memmove-moved : (m : Memory) (dst src n : ℕ) → memmove m dst src n ≡ (moved n m dst src, dst)
unfolding memmove
memmove-moved m dst src n = elim (Bool-cases (leb dst src)) [
  | inl below ↦ rw below (kmemcpy-moved m dst src n (ground arith))
  | inr above ↦ rw above (elim (Bool-cases (leb (src + n) dst)) [
    | inl apart ↦ rw apart (kmemcpy-moved m dst src n (ground arith))
    | inr overlap ↦ rw (overlap, copy_back-moved n m dst src (ground arith))
  ])
]
