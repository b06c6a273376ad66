-- ===== src/Strings/Part.antt =====
-- `strsubcmp` of sys/string.c: a string against a part of another.
use sbunix_public.Base.{
  Bool-cases, inl, inr, ltb, ltb→lt, ℕ, zero, suc, ◌+◌, ◌<◌, ◌≡◌, arith, refl, ◌∙◌, ap, ok, ◌==◌,
  eq→==, ne→==, lt→ltb, Bool, true, false, ◌&&◌,
}
use sbunix_public.Memory.{Memory}
use sbunix_public.Strings.{Comparison, less, greater, compare_from, compare_part_from, strsubcmp}
use sbunix_public.Strings.Length.{IsString, strlen_lem}
use sbunix_public.Strings.Compare.{IsOrdered, longer, shorter, as_long, compare_from_lem}

and_true : (b : Bool) → (b && true) ≡ b
and_true true = refl
and_true false = refl

-- The bound of the part is not reached before the end of the string.
compare_part-compare :
    (left fuel : ℕ) (m : Memory) (str1 str2 from to i n : ℕ)
    → IsString m str1 n
    → i + left ≡ n
    → from + n ≡ to
    → left < fuel
    → compare_part_from fuel m str1 str2 to i (from + i) ≡ compare_from fuel m str1 (str2 + from) i
unfolding compare_part_from compare_from
compare_part-compare left zero m str1 str2 from to i n is e len h = absurd (omega arith)
compare_part-compare zero (suc fuel) m str1 str2 from to i n is e len h =
    let at : i ≡ n = omega arith in rw (at, eq→== (m (str1 + n)) 0 is.end) refl
compare_part-compare (suc left) (suc fuel) m str1 str2 from to i n is e len h =
    let live = ne→== (m (str1 + i)) 0 (is.chars i (omega arith)) in
    let inside = lt→ltb (from + i) to (omega arith) in
    let byte : str2 + (from + i) ≡ str2 + from + i = omega arith in
    let further : from + i + 1 ≡ from + (i + 1) = omega arith in
    let rest =
      compare_part-compare left fuel m str1 str2 from to (i + 1) n is (omega arith) len
        (omega arith) in
    rw (live, inside, byte, further, rest, and_true (m (str1 + i) == m (str2 + from + i))) refl

-- `strsubcmp` terminates. A string longer than the part is greater, a shorter one less, and one that
-- is as long is equal to it when all their bytes are, and otherwise the first two bytes that differ
-- decide, as signed characters.
pub strsubcmp_lem :
    (fuel : ℕ) (m : Memory) (str1 str2 from size n : ℕ)
    → IsString m str1 n
    → n < fuel
    → (c : Comparison) × (strsubcmp fuel str1 str2 from (from + size) m ≡ ok c)
      × IsOrdered m str1 (str2 + from) n size c
unfolding strsubcmp
strsubcmp_lem fuel m str1 str2 from size n is h =
    let len = strlen_lem fuel m str1 n is h in
    let (c, run, cmp) = compare_from_lem n fuel m str1 (str2 + from) 0 n is (omega arith) h in
    elim (Bool-cases (ltb (from + size) (from + n))) [
      | inl q ↦
          let lt = ltb→lt (from + size) (from + n) q in
          (greater, rw (len, q) refl, longer (omega arith))
      | inr q ↦ elim (Bool-cases (ltb (from + n) (from + size))) [
        | inl r ↦
            let lt = ltb→lt (from + n) (from + size) r in
            (less, rw (len, q, r) refl, shorter (omega arith))
        | inr r ↦
            let as_far : n ≡ size = ground arith in
            let start : from ≡ from + 0 = omega arith in
            let part =
              compare_part-compare n fuel m str1 str2 from (from + size) 0 n is (omega arith)
                (omega arith) h in
            (
              c,
              rw (len, q, r)
                  (ap (compare_part_from fuel m str1 str2 (from + size) 0) start ∙ part ∙ run),
              as_long c as_far cmp,
            )
      ]
    ]
