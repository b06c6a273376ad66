-- ===== src/Elf/Tables.antt =====
-- The tests of sys/elf64.c on the header and on the program headers of an image.
use mathlib.Core.Bool.{false≢true}
use sbunix_public.Base.{
  ◌⊎◌, ◌≤◌, ℕ, zero, suc, ◌+◌, ◌<◌, ◌≡◌, ◌≢◌, inl, inr, arith, refl, sym, ap, ◌∙◌, ok, ◌==◌, ◌&&◌,
  if◌then◌else◌, Bool, true, false, Bool-cases, ==_iff, ne→==, List, [], ◌∷◌,
}
use sbunix_public.Memory.{Memory, add64}
use sbunix_public.Strings.{less, char_gt, greater, Comparison, equal}
use sbunix_public.Strings.Part.{strsubcmp_lem}
use sbunix_public.Strings.Compare.{IsOrdered, longer, shorter, as_long, IsCompared, same, differ}
use sbunix_public.Strings.Length.{IsString}
use sbunix_public.Elf.{
  check_elf_loadable, is_same, Elf64Phdr, read_ehdr, phdr_at, validate_elf_header,
  validate_elf_header_from_fp, pt_load, loadable_from,
}

-- The string "ELF" of the source.
pub record IsElfText (m : Memory) (elf : ℕ) : Type 0 where
  pub string : IsString m elf 3
  pub e : m elf ≡ 69
  pub l : m (elf + 1) ≡ 76
  pub f : m (elf + 2) ≡ 70

-- The magic number of an ELF image.
unfoldable pub has_magic : Memory → ℕ → Bool
has_magic m p = (m p == 0x7f) && (m (p + 1) == 69) && (m (p + 2) == 76) && (m (p + 3) == 70)

first_false : (a c d : Bool) → (a && false && c && d) ≡ false
first_false true c d = refl
first_false false c d = refl

second_false : (a b d : Bool) → (a && b && false && d) ≡ false
second_false true true d = refl
second_false true false d = refl
second_false false b d = refl

third_false : (a b c : Bool) → (a && b && c && false) ≡ false
third_false true true true = refl
third_false true true false = refl
third_false true false c = refl
third_false false b c = refl

-- A byte of the name that differs.
other_name :
    (m : Memory) (elf p k : ℕ)
    → IsElfText m elf
    → k < 3
    → m (elf + k) ≢ m (p + 1 + k)
    → has_magic m p ≡ false
unfolding has_magic
other_name m elf p zero text hi ne =
    let at : p + 1 + 0 ≡ p + 1 = omega arith in
    let at' : elf + 0 ≡ elf = omega arith in
    let b : m (p + 1) ≢ 69 = λ e. ne (rw (at, at') (text.e ∙ sym e)) in
    rw (ne→== (m (p + 1)) 69 b) (first_false (m p == 0x7f) (m (p + 2) == 76) (m (p + 3) == 70))
other_name m elf p (suc zero) text hi ne =
    let at : p + 1 + 1 ≡ p + 2 = omega arith in
    let b : m (p + 2) ≢ 76 = λ e. ne (rw at (text.l ∙ sym e)) in
    rw (ne→== (m (p + 2)) 76 b) (second_false (m p == 0x7f) (m (p + 1) == 69) (m (p + 3) == 70))
other_name m elf p (suc (suc zero)) text hi ne =
    let at : p + 1 + 2 ≡ p + 3 = omega arith in
    let b : m (p + 3) ≢ 70 = λ e. ne (rw at (text.f ∙ sym e)) in
    rw (ne→== (m (p + 3)) 70 b) (third_false (m p == 0x7f) (m (p + 1) == 69) (m (p + 2) == 76))
other_name m elf p (suc (suc (suc k))) text hi ne = absurd (omega arith)

decided : (b : Bool) → is_same (if b then greater else less) ≡ 0
decided true = refl
decided false = refl

-- What `validate_elf_header` makes of a comparison with the string.
from_comparison :
    (m : Memory) (elf p : ℕ) (c : Comparison)
    → IsElfText m elf
    → IsCompared m elf (p + 1) 0 3 c
    → m p ≡ 0x7f
    → (is_same c) ≡ (if has_magic m p then 1 else 0)
unfolding has_magic
from_comparison m elf p equal text (same e) magic =
    let at : p + 1 + 0 ≡ p + 1 = omega arith in
    let at' : elf + 0 ≡ elf = omega arith in
    let at2 : p + 1 + 1 ≡ p + 2 = omega arith in
    let at3 : p + 1 + 2 ≡ p + 3 = omega arith in
    let h1 : m elf ≡ m (p + 1) = rw (at, at') at (e 0 (omega arith) (omega arith)) in
    let h2 : m (elf + 1) ≡ m (p + 2) = rw at2 at (e 1 (omega arith) (omega arith)) in
    let h3 : m (elf + 2) ≡ m (p + 3) = rw at3 at (e 2 (omega arith) (omega arith)) in
    let e1 : m (p + 1) ≡ 69 = sym h1 ∙ text.e in
    let e2 : m (p + 2) ≡ 76 = sym h2 ∙ text.l in
    let e3 : m (p + 3) ≡ 70 = sym h3 ∙ text.f in rw (magic, e1, e2, e3) refl
from_comparison m elf p c text (differ k lo hi e ne) magic =
    rw (other_name m elf p k text hi ne) (decided (char_gt (m (elf + k)) (m (p + 1 + k))))

from_order :
    (m : Memory) (elf p : ℕ) (c : Comparison)
    → IsElfText m elf
    → IsOrdered m elf (p + 1) 3 3 c
    → m p ≡ 0x7f
    → is_same c ≡ (if has_magic m p then 1 else 0)
from_order m elf p c text (longer lt) magic = absurd (omega arith)
from_order m elf p c text (shorter lt) magic = absurd (omega arith)
from_order m elf p c text (as_long _ e cmp) magic = from_comparison m elf p c text cmp magic

validates :
    (fuel : ℕ) (m : Memory) (elf p : ℕ)
    → IsElfText m elf
    → 3 < fuel
    → validate_elf_header fuel elf p m ≡ ok (if has_magic m p then 1 else 0)
unfolding validate_elf_header
validates fuel m elf p text h = elim (Bool-cases (m p == 0x7f)) [
  | inl q ↦
      let (c, run, order) = strsubcmp_lem fuel m elf p 1 3 3 text.string h in
      rw (q, run) (ap ok (from_order m elf p c text order ((==_iff (m p) 0x7f).0 q)))
  | inr q ↦ unfold has_magic in rw q refl
]

-- `validate_elf_header` terminates with three more rounds than the string has, and answers 1 exactly
-- for the four bytes of the magic number; `validate_elf_header_from_fp` does the same for the image
-- behind the header of a file in the archive.
pub validate_elf_header_lem :
    (fuel : ℕ) (m : Memory) (elf p : ℕ)
    → IsElfText m elf
    → 3 < fuel
    → (validate_elf_header fuel elf p m ≡ ok (if has_magic m p then 1 else 0))
      × (validate_elf_header_from_fp fuel elf p m ≡ ok (if has_magic m (add64 p 512) then 1 else 0))
unfolding validate_elf_header_from_fp
validate_elf_header_lem fuel m elf p text h =
    (validates fuel m elf p text h, validates fuel m elf (add64 p 512) text h)

-- The program headers of type PT_LOAD from header `i` on, among `left` of them.
unfoldable pub load_headers : Memory → (ehdr i left : ℕ) → List Elf64Phdr
load_headers m ehdr i zero = []
load_headers m ehdr i (suc left) =
    let phdr = phdr_at m ehdr i in
    let rest = load_headers m ehdr (i + 1) left in
    if phdr.p_type == pt_load then phdr ∷ rest else rest

unfoldable pub segments : Memory → ℕ → List Elf64Phdr
segments m ehdr = load_headers m ehdr 0 (read_ehdr m ehdr).e_phnum

none_from :
    (type : ℕ → ℕ) (i left : ℕ)
    → type i ≢ pt_load
    → ((j : ℕ) → i + 1 ≤ j → j < i + 1 + left → type j ≢ pt_load)
    → (j : ℕ) → i ≤ j
    → j < i + suc left
    → type j ≢ pt_load
none_from type i left ne later j lo hi = elim (Bool-cases (j == i)) [
  | inl q ↦ let at = (==_iff j i).0 q in λ e. ne (ap type (sym at) ∙ e)
  | inr q ↦ let other : j ≢ i = ground arith in later j (omega arith) (omega arith)
]

-- The loop over the headers finds the first of type PT_LOAD.
loadable_from_lem :
    (left : ℕ) (m : Memory) (ehdr i : ℕ)
    → ((j : ℕ) × (i ≤ j)
        × (j < i + left)
        × ((phdr_at m ehdr j).p_type ≡ pt_load)
        × (loadable_from m ehdr i left ≡ 1))
      ⊎ (((j : ℕ) → i ≤ j → j < i + left → (phdr_at m ehdr j).p_type ≢ pt_load)
          × (loadable_from m ehdr i left ≡ 0))
unfolding loadable_from
loadable_from_lem zero m ehdr i = inr (λ j lo hi. absurd (omega arith), refl)
loadable_from_lem (suc left) m ehdr i =
    let type = (phdr_at m ehdr i).p_type in
    elim (Bool-cases (type == pt_load)) [
      | inl q ↦ inl (i, omega arith, omega arith, (==_iff type pt_load).0 q, rw q refl)
      | inr q ↦ elim (loadable_from_lem left m ehdr (i + 1)) [
        | inl (j, lo, hi, found, run) ↦ inl (j, omega arith, omega arith, found, rw q run)
        | inr (no_load, run) ↦ inr (
          none_from (λ j. (phdr_at m ehdr j).p_type) i left
              (λ e. false≢true (sym q ∙ (==_iff type pt_load).1 e)) no_load,
          rw q run,
        )
      ]
    ]

-- `check_elf_loadable` answers 1 when one of the `e_phnum` program headers is of type PT_LOAD, and 0
-- when none is.
pub check_elf_loadable_lem :
    (m : Memory) (ehdr : ℕ)
    → ((j : ℕ) × (j < (read_ehdr m ehdr).e_phnum)
        × ((phdr_at m ehdr j).p_type ≡ pt_load)
        × (check_elf_loadable m ehdr ≡ 1))
      ⊎ (((j : ℕ) → j < (read_ehdr m ehdr).e_phnum → (phdr_at m ehdr j).p_type ≢ pt_load)
          × (check_elf_loadable m ehdr ≡ 0))
unfolding check_elf_loadable
check_elf_loadable_lem m ehdr = elim (loadable_from_lem (read_ehdr m ehdr).e_phnum m ehdr 0) [
  | inl (j, lo, hi, load, run) ↦ inl (j, omega arith, load, run)
  | inr (no_load, run) ↦ inr (λ j hi. no_load j (omega arith) (omega arith), run)
]
