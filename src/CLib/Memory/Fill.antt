-- ===== src/CLib/Memory/Fill.antt =====
-- `kmemset` writes one byte over a whole range, by single bytes and by words alike.
use shmdos.Prelude.{
  ℕ, zero, suc, ◌+◌, ◌-◌, ◌*◌, ◌/◌, ◌%◌, ◌≤◌, ◌≡◌, refl, sym, ap, ◌∙◌, inl, inr, ◌&&◌, arith, ltb,
  leb, ◌==◌, Bool-cases, if◌then◌else◌,
}
use mathlib.Core.Path.{fun_ext}
use shmdos.CLib.Memory.{Memory, store, fill_word, fill_bytes, fill_words, fill_body, kmemset}

-- The memory `m` with the `n` bytes from `dst` on replaced by the low byte of `v`.
unfoldable pub filled : ℕ → Memory → ℕ → ℕ → Memory
filled n m dst v x = if leb dst x && ltb x (dst + n) then v % 256 else m x

module _ (v : ℕ) where
  filled-filled :
      (a b : ℕ) (m : Memory) (dst : ℕ)
      → filled b (filled a m dst v) (dst + a) v ≡ filled (a + b) m dst v
  unfolding filled
  filled-filled a b m dst = fun_ext λ x. ground arith

  filled-zero : (m : Memory) (dst : ℕ) → filled 0 m dst v ≡ m
  unfolding filled
  filled-zero m dst = fun_ext λ x. ground arith

  filled-one : (m : Memory) (dst : ℕ) → store m dst (v % 256) ≡ filled 1 m dst v
  unfolding filled
  filled-one m dst = fun_ext λ x. ground arith

  filled-word : (m : Memory) (dst : ℕ) → fill_word m dst v ≡ filled 8 m dst v
  unfolding filled
  filled-word m dst = refl

  fill_bytes-filled : (n : ℕ) (m : Memory) (dst : ℕ) → fill_bytes n m dst v ≡ filled n m dst v
  unfolding fill_bytes
  fill_bytes-filled zero m dst = sym (filled-zero m dst)
  fill_bytes-filled (suc n) m dst =
      rw (filled-one m dst, fill_bytes-filled n (filled 1 m dst v) (dst + 1))
        (filled-filled 1 n m dst ∙ ap (λ k. filled k m dst v) (omega arith))

  fill_words-filled : (n : ℕ) (m : Memory) (dst : ℕ) → fill_words n m dst v ≡ filled (n * 8) m dst v
  unfolding fill_words
  fill_words-filled zero m dst = sym (filled-zero m dst)
  fill_words-filled (suc n) m dst =
      rw (filled-word m dst, fill_words-filled n (filled 8 m dst v) (dst + 8))
        (filled-filled 8 (n * 8) m dst ∙ ap (λ k. filled k m dst v) (omega arith))

  fill_body-filled : (m : Memory) (dst n : ℕ) → fill_body m dst v n ≡ filled n m dst v
  unfolding fill_body
  fill_body-filled m dst n =
      let words = n / 8 * 8 in
      rw
        (
          fill_words-filled (n / 8) m dst,
          fill_bytes-filled (n % 8) (filled words m dst v) (dst + words),
        )
        (filled-filled words (n % 8) m dst ∙ ap (λ k. filled k m dst v) (omega arith))

-- `kmemset` sets every byte of the range to the low byte of the value, writes nothing else, and
-- returns the pointer, at every alignment and size.
pub kmemset-filled : (m : Memory) (ptr v n : ℕ) → kmemset m ptr v n ≡ (filled n m ptr v, ptr)
unfolding kmemset
kmemset-filled m ptr v n = elim (Bool-cases (ptr % 8 == 0)) [
  | inl aligned ↦ rw (aligned, fill_body-filled v m ptr n)
  | inr odd ↦ rw odd (elim (Bool-cases (leb n (ptr % 8))) [
    | inl short ↦ rw (short, fill_bytes-filled v n m ptr)
    | inr long ↦
        let le : ptr % 8 ≤ n = ground arith in
        rw
          (
            long,
            fill_bytes-filled v (ptr % 8) m ptr,
            fill_body-filled v (filled (ptr % 8) m ptr v) (ptr + ptr % 8) (n - ptr % 8),
            filled-filled v (ptr % 8) (n - ptr % 8) m ptr,
          )
          (ap (λ k. (filled k m ptr v, ptr)) (omega arith))
  ])
]
