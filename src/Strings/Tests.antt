-- ===== src/Strings/Tests.antt =====
-- "abc" at 100, and "b" at 200.
use sbunix_public.Base.{ℕ, ◌+◌, ◌-◌, ◌<◌, ◌≤◌, ◌≡◌, ◌⊎◌, arith, refl, ok, ◌==◌, if◌then◌else◌}
use sbunix_public.Memory.{Memory}
use sbunix_public.Strings.{Comparison, strcpy, strcat, strrevcat, strrev, strcmp}
use sbunix_public.Strings.Length.{IsString}
use sbunix_public.Strings.Copy.{IsCopied, strcpy_lem, strcat_lem}
use sbunix_public.Strings.Reverse.{strrev_lem}
use sbunix_public.Strings.Compare.{IsOrdered, strcmp_lem}

abbrev memory : Memory
memory a =
    if a == 100
    then 97
    else (if a == 101 then 98 else (if a == 102 then 99 else (if a == 200 then 98 else 0)))

abc-IsString : IsString memory 100 3
abc-IsString = record { chars = λ i h. ground arith; end = refl }

b-IsString : IsString memory 200 1
b-IsString = record { chars = λ i h. ground arith; end = refl }

strcpy_example : (m' : Memory) × (strcpy 10 300 100 memory ≡ ok m') × IsCopied memory 300 100 3 m'
strcpy_example = strcpy_lem 10 memory 300 100 3 abc-IsString (omega arith) (omega arith)

strcat_of_abc :
    (m' : Memory) × (strcat 10 100 200 memory ≡ ok m')
    × (strrevcat 10 200 100 memory ≡ ok m')
    × IsString m' 100 (3 + 1)
    × ((k : ℕ) → k < 3 → m' (100 + k) ≡ memory (100 + k))
    × ((k : ℕ) → k < 1 → m' (100 + (3 + k)) ≡ memory (200 + k))
strcat_of_abc =
    strcat_lem 10 memory 100 200 3 1 abc-IsString b-IsString (omega arith) (omega arith)
      (omega arith)

strrev_example :
    (m' : Memory) × (strrev 10 100 memory ≡ ok m')
    × ((k : ℕ) → k ≤ 3 → m' (100 + k) ≡ memory (100 + (3 - k)))
    × ((a : ℕ) → (a < 100) ⊎ (100 + 3 < a) → m' a ≡ memory a)
    × IsString m' 100 0
strrev_example = strrev_lem 10 memory 100 3 abc-IsString (omega arith)

c-IsString : IsString memory 102 1
c-IsString = record { chars = λ i h. ground arith; end = refl }

-- "c" and "b" have the same length.
strcmp_example :
    (c : Comparison) × (strcmp 10 102 200 memory ≡ ok c) × IsOrdered memory 102 200 1 1 c
strcmp_example = strcmp_lem 10 memory 102 200 1 1 c-IsString b-IsString (omega arith) (omega arith)
