-- ===== src/Strings/Compare.antt =====
-- `strcmp` of sys/string.c: lengths first, then the first byte that differs.
use sbunix_public.Base.{
  ltb, ltb→lt, ℕ, zero, suc, ◌+◌, ◌<◌, ◌≤◌, ◌≡◌, ◌≢◌, inl, inr, arith, refl, sym, ◌∙◌, ok, ◌==◌,
  if◌then◌else◌, eq→==, ne→==, Bool, true, false, Bool-cases, ==_iff,
}
use mathlib.Core.Bool.{false≢true}
use sbunix_public.Memory.{Memory}
use sbunix_public.Strings.{Comparison, less, equal, greater, char_gt, compare_from, strcmp}
use sbunix_public.Strings.Length.{IsString, strlen_lem}

-- The outcome for two strings of the same length: equal bytes from `i` on, or the first two that
-- differ decide.
pub data IsCompared (m : Memory) (str1 str2 i n : ℕ) : Comparison → Type 0 where
  same : ((k : ℕ) → i ≤ k → k < n → m (str1 + k) ≡ m (str2 + k)) → IsCompared m str1 str2 i n equal
  differ :
      (k : ℕ)
      → i ≤ k
      → k < n
      → ((l : ℕ) → i ≤ l → l < k → m (str1 + l) ≡ m (str2 + l))
      → m (str1 + k) ≢ m (str2 + k)
      → IsCompared m str1 str2 i n (if char_gt (m (str1 + k)) (m (str2 + k)) then greater else less)

same_from :
    (m : Memory) (str1 str2 i k : ℕ)
    → m (str1 + i) ≡ m (str2 + i)
    → (i + 1 ≤ k → m (str1 + k) ≡ m (str2 + k))
    → i ≤ k
    → m (str1 + k) ≡ m (str2 + k)
same_from m str1 str2 i k e later lo = elim (Bool-cases (k == i)) [
  | inl at ↦
      let here : i ≡ k = sym ((==_iff k i).0 at) in
      coe 0 1 (x. m (str1 + here x) ≡ m (str2 + here x)) e
  | inr n ↦ later (let ne : k ≢ i = ground arith in omega arith)
]

-- One more pair of equal bytes in front.
IsCompared-step :
    (m : Memory) (str1 str2 i n : ℕ) (c : Comparison)
    → m (str1 + i) ≡ m (str2 + i)
    → IsCompared m str1 str2 (i + 1) n c
    → IsCompared m str1 str2 i n c
IsCompared-step m str1 str2 i n c e (same s) =
    same λ k lo hi. same_from m str1 str2 i k e (λ h. s k h hi) lo
IsCompared-step m str1 str2 i n c e (differ k lo hi s ne) =
    differ k (omega arith) hi (λ l low high. same_from m str1 str2 i l e (λ h. s l h high) low) ne

decide : (b : Bool) → (if b then ok greater else ok less) ≡ ok (if b then greater else less)
decide true = refl
decide false = refl

pub compare_from_lem :
    (left fuel : ℕ) (m : Memory) (str1 str2 i n : ℕ)
    → IsString m str1 n
    → i + left ≡ n
    → left < fuel
    → (c : Comparison) × (compare_from fuel m str1 str2 i ≡ ok c) × IsCompared m str1 str2 i n c
unfolding compare_from
compare_from_lem left zero m str1 str2 i n is e h = absurd (omega arith)
compare_from_lem zero (suc fuel) m str1 str2 i n is e h =
    let at : i ≡ n = omega arith in
    (equal, rw (at, eq→== (m (str1 + n)) 0 is.end) refl, same λ k lo hi. absurd (omega arith))
compare_from_lem (suc left) (suc fuel) m str1 str2 i n is e h =
    let live = ne→== (m (str1 + i)) 0 (is.chars i (omega arith)) in
    elim (Bool-cases (m (str1 + i) == m (str2 + i))) [
      | inl q ↦
          let at = (==_iff (m (str1 + i)) (m (str2 + i))).0 q in
          let (c, run, is') =
            compare_from_lem left fuel m str1 str2 (i + 1) n is (omega arith) (omega arith) in
          (c, rw (live, q) run, IsCompared-step m str1 str2 i n c at is')
      | inr q ↦ (
        (if char_gt (m (str1 + i)) (m (str2 + i)) then greater else less),
        rw (live, q) (decide (char_gt (m (str1 + i)) (m (str2 + i)))),
        differ i (omega arith) (omega arith) (λ l lo hi. absurd (omega arith))
            (λ z. false≢true (sym q ∙ (==_iff (m (str1 + i)) (m (str2 + i))).1 z)),
      )
    ]

-- The outcome for strings of lengths `n1` and `n2`: the longer one is greater, whatever it holds, and
-- strings of the same length are compared byte by byte.
pub data IsOrdered (m : Memory) (str1 str2 n1 n2 : ℕ) : Comparison → Type 0 where
  longer : n2 < n1 → IsOrdered m str1 str2 n1 n2 greater
  shorter : n1 < n2 → IsOrdered m str1 str2 n1 n2 less
  as_long :
      (c : Comparison) → n1 ≡ n2 → IsCompared m str1 str2 0 n1 c → IsOrdered m str1 str2 n1 n2 c

-- `strcmp` terminates within as many rounds as the strings have bytes. A longer string is greater,
-- whatever it holds. Strings of the same length are equal when all their bytes are, and otherwise the
-- first two bytes that differ decide, as signed characters.
pub strcmp_lem :
    (fuel : ℕ) (m : Memory) (str1 str2 n1 n2 : ℕ)
    → IsString m str1 n1
    → IsString m str2 n2
    → n1 < fuel
    → n2 < fuel
    → (c : Comparison) × (strcmp fuel str1 str2 m ≡ ok c) × IsOrdered m str1 str2 n1 n2 c
unfolding strcmp
strcmp_lem fuel m str1 str2 n1 n2 is1 is2 h1 h2 =
    let l1 = strlen_lem fuel m str1 n1 is1 h1 in
    let l2 = strlen_lem fuel m str2 n2 is2 h2 in
    let (c, run, is) = compare_from_lem n1 fuel m str1 str2 0 n1 is1 (omega arith) h1 in
    elim (Bool-cases (ltb n2 n1)) [
      | inl q ↦ (greater, rw (l1, l2, q) refl, longer (ltb→lt n2 n1 q))
      | inr q ↦ elim (Bool-cases (ltb n1 n2)) [
        | inl r ↦ (less, rw (l1, l2, q, r) refl, shorter (ltb→lt n1 n2 r))
        | inr r ↦ (c, rw (l1, l2, q, r) run, as_long c (let e : n1 ≡ n2 = ground arith in e) is)
      ]
    ]
