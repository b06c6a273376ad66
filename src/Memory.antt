-- ===== src/Memory.antt =====
-- Memory as the kernel sees it: bytes for strings and buffers, 8-byte words for the tables and the
-- lists of sys/paging.c, and `memset` of sys/mm.c on either.
pub mod Laws
mod Tests
use sbunix_public.Base.{ℕ, zero, suc, ◌+◌, ◌-◌, ◌%◌, ◌^◌, ◌==◌, if◌then◌else◌}

-- An address to what it holds: a byte, or the word that starts there. A word memory is used at
-- multiples of 8 only, so two words never overlap.
abbrev pub Memory : Type 0
Memory = ℕ → ℕ

unfoldable pub store : Memory → ℕ → ℕ → Memory
store m a v b = if b == a then v else m b

-- uint64_t arithmetic
abbrev pub add64 : ℕ → ℕ → ℕ
add64 a b = (a + b) % 2 ^ 64

abbrev pub sub64 : ℕ → ℕ → ℕ
sub64 a b = (a + 2 ^ 64 - b) % 2 ^ 64

-- `memset` over bytes, one round for each byte left.
unfoldable pub memset : Memory → ℕ → ℕ → ℕ → Memory
unfolding store
memset m p val zero = m
memset m p val (suc size) = memset (store m p (val % 256)) (p + 1) val size

-- `memset` to 0 seen on words: `words` of them, from a multiple of 8 on.
unfoldable pub clear_words : Memory → ℕ → ℕ → Memory
unfolding store
clear_words m p zero = m
clear_words m p (suc words) = clear_words (store m p 0) (p + 8) words
