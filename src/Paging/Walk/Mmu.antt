-- ===== src/Paging/Walk/Mmu.antt =====
-- What the walk code relies on in the processor: the four-level translation of the x86-64 manual,
-- for entries that are present, writable and refer to a table or a 4 KB page.
use sbunix_public.Base.{
  false, refl, ℕ, ◌+◌, ◌*◌, ◌/◌, ◌%◌, ◌^◌, ◌<◌, ◌≡◌, Option, none, some, ◌==◌, ltb, ◌&&◌,
  if◌then◌else◌, arith, Bool, true,
}
use sbunix_public.Memory.{Memory}

-- The index of a virtual address in the table of each level.
abbrev pub pml4_index : ℕ → ℕ
pml4_index v = v / 2 ^ 39 % 512

abbrev pub pdpe_index : ℕ → ℕ
pdpe_index v = v / 2 ^ 30 % 512

abbrev pub pgd_index : ℕ → ℕ
pgd_index v = v / 2 ^ 21 % 512

abbrev pub pte_index : ℕ → ℕ
pte_index v = v / 2 ^ 12 % 512

-- The page that an entry refers to.
abbrev pub frame : ℕ → ℕ
frame e = e / 4096 * 4096

-- Present and writable, with no address bit above 51 and no large-page bit.
pub record IsEntry (e : ℕ) : Type 0 where
  pub flags : e % 4 ≡ 3
  pub size : e < 2 ^ 52
  pub small : e / 128 % 2 ≡ 0

-- Where all four entries are such, the address is that of the page plus the offset.
abbrev pub IsX86 : (Memory → ℕ → ℕ → Option ℕ) → Type 0
IsX86 translate =
    (m : Memory) (cr3 v e4 e3 e2 e1 : ℕ)
    → m (cr3 + 8 * pml4_index v) ≡ e4
    → IsEntry e4
    → m (frame e4 + 8 * pdpe_index v) ≡ e3
    → IsEntry e3
    → m (frame e3 + 8 * pgd_index v) ≡ e2
    → IsEntry e2
    → m (frame e2 + 8 * pte_index v) ≡ e1
    → IsEntry e1
    → translate m cr3 v ≡ some (frame e1 + v % 4096)

-- A processor for which this holds: it walks the tables, and faults at any other entry.
usable : ℕ → Bool
usable e = (e % 4 == 3) && ltb e (2 ^ 52) && (e / 128 % 2 == 0)

usable-IsEntry : (e : ℕ) → IsEntry e → usable e ≡ true
unfolding usable
usable-IsEntry e h = ground arith

unfoldable pub step : ℕ → (ℕ → Option ℕ) → Option ℕ
unfolding usable
step e next = if usable e then next (frame e) else none

step-IsEntry : (e : ℕ) (next : ℕ → Option ℕ) → IsEntry e → step e next ≡ next (frame e)
unfolding step
step-IsEntry e next h = rw (usable-IsEntry e h)

unfoldable pub walk_tables : Memory → ℕ → ℕ → Option ℕ
walk_tables m cr3 v = step (m (cr3 + 8 * pml4_index v)) λ pdpt.
    step (m (pdpt + 8 * pdpe_index v)) λ pgd.
      step (m (pgd + 8 * pgd_index v))
        λ pt. step (m (pt + 8 * pte_index v)) λ page. some (page + v % 4096)

pub walk_tables-IsX86 : IsX86 walk_tables
unfolding walk_tables
walk_tables-IsX86 m cr3 v e4 e3 e2 e1 h4 i4 h3 i3 h2 i2 h1 i1 = rw (
  h4,
  step-IsEntry e4 _ i4,
  h3,
  step-IsEntry e3 _ i3,
  h2,
  step-IsEntry e2 _ i2,
  h1,
  step-IsEntry e1 _ i1,
)

-- Some result, whatever it is.
abbrev pub HasResult : Option ℕ → Type 0
HasResult r = (p : ℕ) × (r ≡ some p)

if-HasResult :
    (b : Bool) (x y : Option ℕ)
    → (HasResult x → HasResult y)
    → HasResult (if b then x else none)
    → HasResult (if b then y else none)
if-HasResult true x y h r = h r
if-HasResult false x y h r = r

step-HasResult :
    (e : ℕ) (f g : ℕ → Option ℕ)
    → ((x : ℕ) → HasResult (f x) → HasResult (g x))
    → HasResult (step e f)
    → HasResult (step e g)
unfolding step
step-HasResult e f g h = if-HasResult (usable e) (f (frame e)) (g (frame e)) (h (frame e))

-- Where the start of a page is mapped, all its bytes are.
pub walk_tables_page :
    (m : Memory) (cr3 start i : ℕ)
    → start % 4096 ≡ 0
    → i < 4096
    → HasResult (walk_tables m cr3 start)
    → HasResult (walk_tables m cr3 (start + i))
unfolding walk_tables
walk_tables_page m cr3 start i aligned inside h =
    let e4 : pml4_index (start + i) ≡ pml4_index start = omega arith in
    let e3 : pdpe_index (start + i) ≡ pdpe_index start = omega arith in
    let e2 : pgd_index (start + i) ≡ pgd_index start = omega arith in
    let e1 : pte_index (start + i) ≡ pte_index start = omega arith in
    rw (e4, e3, e2, e1)
      (step-HasResult (m (cr3 + 8 * pml4_index start)) _ _
        (λ pdpt. step-HasResult (m (pdpt + 8 * pdpe_index start)) _ _ (λ pgd.
          step-HasResult (m (pgd + 8 * pgd_index start)) _ _ (λ pt.
            step-HasResult (m (pt + 8 * pte_index start)) _ _
              (λ page r. (page + (start + i) % 4096, refl)))))
        h)
