-- ===== src/Strings.antt =====
-- The string functions of sys/string.c, which libc/string.c repeats. A string is the bytes of memory
-- from an address up to the first 0. The loops that look for that 0 take fuel. The functions that
-- write answer 1 always, and the model answers the memory.
pub mod Length
pub mod Copy
pub mod Compare
pub mod Part
pub mod Reverse
mod Tests
use sbunix_public.Base.{
  ◌%◌, ℕ, zero, suc, ◌+◌, ◌-◌, Run, ok, out_of_fuel, ◌>>=◌, ltb, ◌==◌, ◌&&◌, ◌||◌, if◌then◌else◌,
  Bool,
}
use sbunix_public.Memory.{Memory, store}

-- A result of the comparisons.
pub data Comparison : Type 0 where
  less equal greater : Comparison

-- `while (str[len++] != '\0'); return len - 1;`, from `len` on.
pub strlen_from : ℕ → Memory → (str len : ℕ) → Run ℕ
strlen_from zero m str len = out_of_fuel
strlen_from (suc fuel) m str len =
    let rest = strlen_from fuel m str (len + 1) in if m (str + len) == 0 then ok len else rest

pub strlen : ℕ → Memory → ℕ → Run ℕ
strlen fuel m str = strlen_from fuel m str 0

-- `for (i = 0; i < len; i++) str1[i] = str2[i];`, with `left` rounds to go.
pub copy_bytes : Memory → (str1 str2 i left : ℕ) → Memory
unfolding store
copy_bytes m str1 str2 i zero = m
copy_bytes m str1 str2 i (suc left) =
    copy_bytes (store m (str1 + i) (m (str2 + i))) str1 str2 (i + 1) left

pub strcpy : ℕ → (str1 str2 : ℕ) → Memory → Run Memory
unfolding store
strcpy fuel str1 str2 m = do
  len ← strlen fuel m str2
  ok (store (copy_bytes m str1 str2 0 len) (str1 + len) 0)

pub strsubcpy : (str1 str2 from to : ℕ) → Memory → Memory
strsubcpy str1 str2 from to m = copy_bytes m str1 str2 from (to - from)

pub strcat : ℕ → (str1 str2 : ℕ) → Memory → Run Memory
strcat fuel str1 str2 m = do len1 ← strlen fuel m str1; strcpy fuel (str1 + len1) str2 m

-- The first string behind the second.
pub strrevcat : ℕ → (str1 str2 : ℕ) → Memory → Run Memory
strrevcat fuel str1 str2 m = do len2 ← strlen fuel m str2; strcpy fuel (str2 + len2) str1 m

-- `while (i < j)`: the bytes at `i` and `j` change places.
pub swap_bytes : ℕ → (str i j : ℕ) → Memory → Run Memory
unfolding store
swap_bytes zero str i j m = out_of_fuel
swap_bytes (suc fuel) str i j m =
    let m' = store (store m (str + i) (m (str + j))) (str + j) (m (str + i)) in
    let rest = swap_bytes fuel str (i + 1) (j - 1) m' in if ltb i j then rest else ok m

pub strrev : ℕ → ℕ → Memory → Run Memory
strrev fuel str m = do j ← strlen fuel m str; swap_bytes fuel str 0 j m

-- A `char` is signed: bytes from 128 on are negative.
pub char_gt : ℕ → ℕ → Bool
char_gt a b = ltb ((b + 128) % 256) ((a + 128) % 256)

-- The loop of `strcmp` from index `i` on, and the tests behind it.
pub compare_from : ℕ → Memory → (str1 str2 i : ℕ) → Run Comparison
compare_from zero m str1 str2 i = out_of_fuel
compare_from (suc fuel) m str1 str2 i =
    let a = m (str1 + i) in
    let b = m (str2 + i) in
    let rest = compare_from fuel m str1 str2 (i + 1) in
    if a == 0
    then ok equal
    else (if a == b then rest else (if char_gt a b then ok greater else ok less))

pub strcmp : ℕ → (str1 str2 : ℕ) → Memory → Run Comparison
strcmp fuel str1 str2 m = do
  len1 ← strlen fuel m str1
  len2 ← strlen fuel m str2
  (if ltb len2 len1
      then ok greater
      else (if ltb len1 len2 then ok less else compare_from fuel m str1 str2 0))

-- The same for `str1` and the bytes of `str2` from index `from` to before `to`.
pub compare_part_from : ℕ → Memory → (str1 str2 to i j : ℕ) → Run Comparison
compare_part_from zero m str1 str2 to i j = out_of_fuel
compare_part_from (suc fuel) m str1 str2 to i j =
    let a = m (str1 + i) in
    let b = m (str2 + j) in
    let rest = compare_part_from fuel m str1 str2 to (i + 1) (j + 1) in
    if a == 0
    then ok equal
    else (if (a == b) && ltb j to then rest else (if char_gt a b then ok greater else ok less))

pub strsubcmp : ℕ → (str1 str2 from to : ℕ) → Memory → Run Comparison
strsubcmp fuel str1 str2 from to m = do
  len1 ← strlen fuel m str1
  (if ltb to (from + len1)
      then ok greater
      else (if ltb (from + len1) to then ok less else compare_part_from fuel m str1 str2 to 0 from))
