-- ===== src/Strings/Copy.antt =====
-- `strcpy` and `strcat` of sys/string.c copy strings that do not overlap.
use sbunix_public.Base.{
  sym, ==_iff, Bool-cases, ◌∙◌, ap, ℕ, zero, suc, ◌+◌, ◌<◌, ◌≤◌, ◌≡◌, ◌≢◌, ◌⊎◌, inl, inr, arith,
  refl, ok, ◌==◌, eq→==, ne→==,
}
use sbunix_public.Memory.{Memory, store}
use sbunix_public.Strings.{copy_bytes, strcpy, strcat, strrevcat}
use sbunix_public.Strings.Length.{IsString-join, IsString, strlen_lem}

-- The bytes from `a` to before `a + n`, and those from `b` to before `b + k`, have none in common.
abbrev pub Apart : (a n b k : ℕ) → Type 0
Apart a n b k = (a + n ≤ b) ⊎ (b + k ≤ a)

-- The copy leaves every byte outside its range, and puts into it what stood in the other one.
copy_bytes_out :
    (left : ℕ) (m : Memory) (str1 str2 i a : ℕ)
    → (a < str1 + i) ⊎ (str1 + i + left ≤ a)
    → copy_bytes m str1 str2 i left a ≡ m a
unfolding copy_bytes store
copy_bytes_out zero m str1 str2 i a h = refl
copy_bytes_out (suc left) m str1 str2 i a h =
    copy_bytes_out left (store m (str1 + i) (m (str2 + i))) str1 str2 (i + 1) a (omega arith)
    ∙ rw (ne→== a (str1 + i) (omega arith)) refl

copy_bytes_in :
    (left : ℕ) (m : Memory) (str1 str2 i k : ℕ)
    → Apart (str1 + i) left (str2 + i) left
    → i ≤ k
    → k < i + left
    → copy_bytes m str1 str2 i left (str1 + k) ≡ m (str2 + k)
unfolding copy_bytes store
copy_bytes_in zero m str1 str2 i k h lo hi = absurd (omega arith)
copy_bytes_in (suc left) m str1 str2 i k h lo hi =
    let m' = store m (str1 + i) (m (str2 + i)) in
    elim (Bool-cases (k == i)) [
      | inl e ↦
          let at : k ≡ i = (==_iff k i).0 e in
          copy_bytes_out left m' str1 str2 (i + 1) (str1 + k) (omega arith)
          ∙ rw (eq→== (str1 + k) (str1 + i) (omega arith), at) refl
      | inr e ↦
          let ne : k ≢ i = ground arith in
          copy_bytes_in left m' str1 str2 (i + 1) k (omega arith) (omega arith) (omega arith)
          ∙ rw (ne→== (str2 + k) (str1 + i) (omega arith)) refl
    ]

-- The result of a copy of the `n` bytes of the string at `str2`: they and an end mark stand at
-- `str1`, and no other byte changes.
pub record IsCopied (m : Memory) (str1 str2 n : ℕ) (m' : Memory) : Type 0 where
  pub bytes : (k : ℕ) → k < n → m' (str1 + k) ≡ m (str2 + k)
  pub end : m' (str1 + n) ≡ 0
  pub kept : (a : ℕ) → (a < str1) ⊎ (str1 + n + 1 ≤ a) → m' a ≡ m a

-- `strcpy` copies a string and its end mark to a place that does not overlap with it, within as many
-- rounds as the string has bytes, and changes no other byte.
pub strcpy_lem :
    (fuel : ℕ) (m : Memory) (str1 str2 n : ℕ)
    → IsString m str2 n
    → Apart str1 (n + 1) str2 (n + 1)
    → n < fuel
    → (m' : Memory) × (strcpy fuel str1 str2 m ≡ ok m') × IsCopied m str1 str2 n m'
unfolding strcpy store
strcpy_lem fuel m str1 str2 n is h enough =
    let copied = copy_bytes m str1 str2 0 n in
    (
      store copied (str1 + n) 0,
      rw (strlen_lem fuel m str2 n is enough) refl,
      record {
        bytes = λ k lt.
            rw (ne→== (str1 + k) (str1 + n) (omega arith))
              (copy_bytes_in n m str1 str2 0 k (omega arith) (omega arith) (omega arith));
        end = rw (eq→== (str1 + n) (str1 + n) refl) refl;
        kept = λ a out.
            rw (ne→== a (str1 + n) (omega arith)) (copy_bytes_out n m str1 str2 0 a (omega arith));
      },
    )

-- `strcat` puts the second string behind the first, which has to be apart from where it comes to
-- stand: the result is a string of both lengths together, the first part as it was and the second a
-- copy. `strrevcat` does the same with the two exchanged.
pub strcat_lem :
    (fuel : ℕ) (m : Memory) (str1 str2 n1 n2 : ℕ)
    → IsString m str1 n1
    → IsString m str2 n2
    → Apart (str1 + n1) (n2 + 1) str2 (n2 + 1)
    → n1 < fuel
    → n2 < fuel
    → (m' : Memory) × (strcat fuel str1 str2 m ≡ ok m')
      × (strrevcat fuel str2 str1 m ≡ ok m')
      × IsString m' str1 (n1 + n2)
      × ((k : ℕ) → k < n1 → m' (str1 + k) ≡ m (str1 + k))
      × ((k : ℕ) → k < n2 → m' (str1 + (n1 + k)) ≡ m (str2 + k))
unfolding strcat strrevcat
strcat_lem fuel m str1 str2 n1 n2 is1 is2 h enough1 enough2 =
    let (m', run, is) = strcpy_lem fuel m (str1 + n1) str2 n2 is2 h enough2 in
    let first : (k : ℕ) → k < n1 → m' (str1 + k) ≡ m (str1 + k) =
      λ k lt. is.kept (str1 + k) (omega arith) in
    let second : (k : ℕ) → k < n2 → m' (str1 + (n1 + k)) ≡ m (str2 + k) =
      λ k lt. ap m' (omega arith) ∙ is.bytes k lt in
    (
      m',
      rw (strlen_lem fuel m str1 n1 is1 enough1) run,
      rw (strlen_lem fuel m str1 n1 is1 enough1) run,
      IsString-join m' str1 n1 n2 (λ k lt. λ z. is1.chars k lt (sym (first k lt) ∙ z))
          (λ k lt. λ z. is2.chars k lt (sym (second k lt) ∙ z)) (ap m' (omega arith) ∙ is.end),
      first,
      second,
    )
