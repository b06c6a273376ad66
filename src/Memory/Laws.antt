-- ===== src/Memory/Laws.antt =====
-- What `memset` of sys/mm.c writes, and what it leaves alone.
use sbunix_public.Base.{
  ℕ, zero, suc, ◌+◌, ◌*◌, ◌%◌, ◌≤◌, ◌<◌, ◌≡◌, refl, ◌&&◌, ◌⊎◌, inl, inr, arith, leb, ltb,
  if◌then◌else◌,
}
use sbunix_public.Memory.{Memory, store, memset, clear_words}

-- `memset` writes the low byte of its value at exactly the `size` bytes from its pointer on, and
-- leaves every other byte as it was.
pub memset_range :
    (m : Memory) (p val size a : ℕ)
    → memset m p val size a ≡ (if leb p a && ltb a (p + size) then val % 256 else m a)
unfolding memset
memset_range m p val zero a = ground arith
memset_range m p val (suc size) a =
    ground (arith, memset_range (store m p (val % 256)) (p + 1) val size a)

-- A word outside the range keeps its value.
pub clear_words_out :
    (words : ℕ) (m : Memory) (p a : ℕ)
    → (a < p) ⊎ (p + 8 * words ≤ a)
    → clear_words m p words a ≡ m a
unfolding clear_words
clear_words_out zero m p a h = refl
clear_words_out (suc words) m p a (inl h) =
    ground (arith, clear_words_out words (store m p 0) (p + 8) a (inl (omega arith)))
clear_words_out (suc words) m p a (inr h) =
    ground (arith, clear_words_out words (store m p 0) (p + 8) a (inr (omega arith)))
