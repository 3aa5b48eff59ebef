-- ===== src/CLib/Memory.antt =====
-- `memcpy`, `memset`, `memmove` and `memcmp`: kernel/CLibImpl.cpp and include/kclib.h. A pointer is
-- an address of the byte memory, the ranges stay below 2^64, and `x & 7` is `x % 8`.
pub mod Copy
pub mod Fill
pub mod Compare
use shmdos.Prelude.{ℕ, zero, suc, ◌+◌, ◌-◌, ◌*◌, ◌/◌, ◌%◌, ◌&&◌, ltb, leb, ◌==◌, if◌then◌else◌}
use shmdos.Prelude.Int.{ℤ, pos, negsuc}

abbrev pub Memory : Type 0
Memory = ℕ → ℕ

abbrev pub store : Memory → ℕ → ℕ → Memory
store m a v x = if x == a then v else m x

-- Eight bytes are read before any is written.
abbrev pub copy_word : Memory → ℕ → ℕ → Memory
copy_word m dst src x = if leb dst x && ltb x (dst + 8) then m (src + (x - dst)) else m x

-- `while (size-- > 0) *pb_dst++ = *pb_src++;`
unfoldable pub copy_bytes : ℕ → Memory → ℕ → ℕ → Memory
copy_bytes zero m dst src = m
copy_bytes (suc n) m dst src = copy_bytes n (store m dst (m src)) (dst + 1) (src + 1)

-- `while (p_dst != p_end) *p_dst++ = *p_src++;`
unfoldable pub copy_words : ℕ → Memory → ℕ → ℕ → Memory
copy_words zero m dst src = m
copy_words (suc n) m dst src = copy_words n (copy_word m dst src) (dst + 8) (src + 8)

-- From the word loop on: whole words, then the bytes that are left.
unfoldable pub copy_body : Memory → ℕ → ℕ → ℕ → Memory
unfolding copy_bytes copy_words
copy_body m dst src size =
    let words = size / 8 in
    copy_bytes (size % 8) (copy_words words m dst src) (dst + words * 8) (src + words * 8)

-- The memory after the call, and the pointer that is returned.
unfoldable pub kmemcpy : Memory → ℕ → ℕ → ℕ → Memory × ℕ
unfolding copy_body
kmemcpy m dst src size =
    let rest = dst % 8 in
    if rest == 0
    then (copy_body m dst src size, dst)
    else if leb size rest
    then (copy_bytes size m dst src, dst)
    else (copy_body (copy_bytes rest m dst src) (dst + rest) (src + rest) (size - rest), dst)

-- `while (pbDstReverse > pbDst) *--pbDstReverse = *--pbSrcReverse;`
unfoldable pub copy_back : ℕ → Memory → ℕ → ℕ → Memory
copy_back zero m dst src = m
copy_back (suc n) m dst src = copy_back n (store m (dst + n) (m (src + n))) dst src

unfoldable pub memmove : Memory → ℕ → ℕ → ℕ → Memory × ℕ
unfolding kmemcpy copy_back
memmove m dst src size =
    if leb dst src
    then kmemcpy m dst src size
    else if leb (src + size) dst
    then kmemcpy m dst src size
    else (copy_back size m dst src, dst)

abbrev pub fill_word : Memory → ℕ → ℕ → Memory
fill_word m dst value x = if leb dst x && ltb x (dst + 8) then value % 256 else m x

unfoldable pub fill_bytes : ℕ → Memory → ℕ → ℕ → Memory
fill_bytes zero m dst value = m
fill_bytes (suc n) m dst value = fill_bytes n (store m dst (value % 256)) (dst + 1) value

unfoldable pub fill_words : ℕ → Memory → ℕ → ℕ → Memory
fill_words zero m dst value = m
fill_words (suc n) m dst value = fill_words n (fill_word m dst value) (dst + 8) value

-- The word loop, entered only if there is a word, then the bytes that are left.
unfoldable pub fill_body : Memory → ℕ → ℕ → ℕ → Memory
unfolding fill_bytes fill_words
fill_body m dst value size =
    let words = size / 8 in
    fill_bytes (size % 8) (fill_words words m dst value) (dst + words * 8) value

unfoldable pub kmemset : Memory → ℕ → ℕ → ℕ → Memory × ℕ
unfolding fill_body
kmemset m ptr value size =
    let rest = ptr % 8 in
    if rest == 0
    then (fill_body m ptr value size, ptr)
    else if leb size rest
    then (fill_bytes size m ptr value, ptr)
    else (fill_body (fill_bytes rest m ptr value) (ptr + rest) value (size - rest), ptr)

-- `kstrncmp<uint8_t>`
unfoldable pub memcmp : ℕ → Memory → ℕ → ℕ → ℤ
memcmp zero m lhs rhs = pos 0
memcmp (suc size) m lhs rhs =
    let rest = memcmp size m (lhs + 1) (rhs + 1) in
    if m lhs == m rhs then rest else (if ltb (m lhs) (m rhs) then negsuc 0 else pos 1)
