-- ===== src/Print/Digits.antt =====
-- The number printers of sys/kprintf.c: what is written can be read back.
use sbunix_public.Base.{
  ◌∙◌, sym, ==_iff, Bool-cases, Run, ℕ, zero, suc, ◌+◌, ◌-◌, ◌*◌, ◌/◌, ◌%◌, ◌^◌, ◌<◌, ◌≤◌, ◌≡◌, ◌≢◌,
  ◌⊎◌, inl, inr, arith, refl, ok, leb, ◌==◌, if◌then◌else◌, eq→==, ne→==,
}
use native.Mathlib.Nat.{pow-suc, pow-succ', mul-le-mul_left}
use native.Mathlib.Numerals.{unary_clauses}
use mathlib.Core.Bool.{false≢true}
use sbunix_public.Memory.{Memory, store}
use sbunix_public.Print.{negsuc, pos, hex_digit, put_digit, print_pointer, print_nat, print_int}

-- The number that a digit stands for, and the one that `count` cells from `video` on show.
abbrev pub digit_value : ℕ → ℕ
digit_value c = if leb 97 c then c - 87 else c - 48

abbrev pub shown : ℕ → Memory → ℕ → ℕ → ℕ
shown base m video zero = 0
shown base m video (suc count) =
    shown base m video count * base + digit_value (m (video + 2 * count))

-- Only the cells from `video` on count.
shown-store :
    (base : ℕ) (m : Memory) (video a x count : ℕ)
    → (a < video) ⊎ (video + 2 * count ≤ a)
    → shown base (store m a x) video count ≡ shown base m video count
unfolding store
shown-store base m video a x zero h = refl
shown-store base m video a x (suc count) h =
    rw (ne→== (video + 2 * count) a (omega arith), shown-store base m video a x count (omega arith))
      refl

-- A print of `num`: the number of cells, which show it in the base; the first of them is not a zero;
-- their colour; and no other byte changes.
pub record IsShown (base video colour num count : ℕ) (m m' : Memory) : Type 0 where
  pub value : shown base m' video count ≡ num
  pub kept : (a : ℕ) → (a < video) ⊎ (video + 2 * count ≤ a) → m' a ≡ m a
  pub colours : (k : ℕ) → k < count → m' (video + 2 * k + 1) ≡ colour % 256

-- One more digit behind a print.
put_digit-IsShown :
    (base video colour num count digit : ℕ) (m m' : Memory)
    → digit < 256
    → IsShown base video colour num count m m'
    → (m'' : Memory) × (put_digit video colour digit (2 * count, m') ≡ ok (2 * suc count, m''))
      × IsShown base video colour (num * base + digit_value digit) (suc count) m m''
unfolding put_digit store
put_digit-IsShown base video colour num count digit m m' small is =
    let a = video + 2 * count in
    let m1 = store m' a (digit % 256) in
    let m2 = store m1 (a + 1) (colour % 256) in
    let byte : digit % 256 ≡ digit = omega arith in
    let cells : 2 + 2 * count ≡ 2 * suc count = omega arith in
    (
      m2,
      rw cells refl,
      record {
        value =
            rw
              (
                shown-store base m1 video (a + 1) (colour % 256) count (inr (omega arith)),
                shown-store base m' video a (digit % 256) count (inr (omega arith)),
                is.value,
                ne→== a (a + 1) (omega arith),
                eq→== a a refl,
                byte,
              )
              refl;
        kept = λ b h.
            rw (ne→== b (a + 1) (omega arith), ne→== b a (omega arith)) (is.kept b (omega arith));
        colours = λ k h. elim (Bool-cases (k == count)) [
          | inl e ↦
              let at : video + 2 * k + 1 ≡ a + 1 = omega (arith, (==_iff k count).0 e) in
              rw (eq→== (video + 2 * k + 1) (a + 1) at) refl
          | inr n ↦
              let ne : k ≢ count = ground arith in
              rw
                (
                  ne→== (video + 2 * k + 1) (a + 1) (omega arith),
                  ne→== (video + 2 * k + 1) a (omega arith),
                )
                (is.colours k (omega arith))
        ];
      },
    )

hex_digit_value : (d : ℕ) → d < 16 → (digit_value (hex_digit d) ≡ d) × (hex_digit d < 256)
unfolding hex_digit
hex_digit_value d h = ground arith

empty-IsShown : (base video colour : ℕ) (m : Memory) → IsShown base video colour 0 0 m m
empty-IsShown base video colour m = record {
  value = refl;
  kept = λ a h. refl;
  colours = λ k h. absurd (omega arith);
}

-- The result of a printer: the number of cells is that of the digits, with no zero in front.
abbrev pub Prints : ℕ → (video colour num : ℕ) → Memory → Run (ℕ × Memory) → Type 0
Prints base video colour num m r =
    (count : ℕ) × (m' : Memory) × (r ≡ ok (2 * count, m'))
    × IsShown base video colour num count m m'
    × (num ≡ 0 → count ≡ 0)
    × (num ≢ 0 → base ^ count ≤ base * num)

no_leading_zero :
    (base q n count : ℕ)
    → base * q ≤ n
    → 0 < n
    → (q ≡ 0 → count ≡ 0)
    → (q ≢ 0 → base ^ count ≤ base * q)
    → base ^ suc count ≤ base * n
no_leading_zero base q n count h live none_for first = elim (Bool-cases (q == 0)) [
  | inl e ↦
      let z : count ≡ 0 = none_for ((==_iff q 0).0 e) in
      let one : base ^ count ≤ n = rw z (simp unary_clauses live) in
      rw (pow-succ' base count) (mul-le-mul_left base one)
  | inr e ↦
      let f = first (λ z. false≢true (sym e ∙ (==_iff q 0).1 z)) in
      let one : base ^ count ≤ n = omega arith in
      rw (pow-succ' base count) (mul-le-mul_left base one)
]

-- `printPointer` terminates on every number, and for a 64-bit number within 17 calls. It writes the
-- digits of the number in base 16 with no zero in front, each with the colour beside it, so that they
-- can be read back, answers the number of bytes written, and writes no other byte. For 0 it writes
-- nothing.
pub print_pointer_lem :
    (fuel video colour num : ℕ) (m : Memory)
    → num < 16 ^ fuel
    → Prints 16 video colour num m (print_pointer (suc fuel) video colour num m)
unfolding print_pointer
print_pointer_lem fuel video colour zero m h =
    (0, m, refl, empty-IsShown 16 video colour m, λ e. refl, λ n. absurd (n refl))
print_pointer_lem zero video colour (suc num) m h = absurd (omega arith)
print_pointer_lem (suc fuel) video colour (suc num) m h =
    let n = suc num in
    let small : n / 16 < 16 ^ fuel = omega (arith, pow-suc 16 fuel) in
    let (count, m', run, is, none_for, first) =
      print_pointer_lem fuel video colour (n / 16) m small in
    let (value, byte) = hex_digit_value (n % 16) (omega arith) in
    let (m'', done, is') =
      put_digit-IsShown 16 video colour (n / 16) count (hex_digit (n % 16)) m m' byte is in
    let whole : n / 16 * 16 + digit_value (hex_digit (n % 16)) ≡ n = omega (arith, value) in
    (
      suc count,
      m'',
      rw (ne→== n 0 (omega arith), run) done,
      coe 0 1 (i. IsShown 16 video colour (whole i) (suc count) m m'') is',
      λ e. absurd (omega arith),
      λ e. no_leading_zero 16 (n / 16) n count (omega arith) (omega arith) none_for first,
    )

-- A print over memory that differs from `m` only in the first cell.
IsShown-first :
    (base video colour num count : ℕ) (m m1 m' : Memory)
    → ((a : ℕ) → (a < video) ⊎ (video + 2 ≤ a) → m1 a ≡ m a)
    → 0 < count
    → IsShown base video colour num count m1 m'
    → IsShown base video colour num count m m'
IsShown-first base video colour num count m m1 m' same some_cell is = record {
  value = is.value;
  kept = λ a h. is.kept a h ∙ same a (omega arith);
  colours = is.colours;
}

digit_value-decimal : (d : ℕ) → d < 10 → (digit_value (d + 48) ≡ d) × (d + 48 < 256)
digit_value-decimal d h = ground arith

-- One digit after the rest of the number, or after the zero that stands there before it.
print_nat_lem :
    (fuel video colour num : ℕ) (m : Memory)
    → num < 10 ^ fuel
    → num ≢ 0
    → (count : ℕ) × (m' : Memory) × (print_nat (suc fuel) video colour num m ≡ ok (2 * count, m'))
      × IsShown 10 video colour num count m m'
      × (0 < count)
unfolding print_nat store
print_nat_lem zero video colour num m h ne = absurd (omega arith)
print_nat_lem (suc fuel) video colour num m h ne =
    let (value, byte) = digit_value-decimal (num % 10) (omega arith) in
    let whole : num / 10 * 10 + digit_value (num % 10 + 48) ≡ num = omega (arith, value) in
    elim (Bool-cases (num / 10 == 0)) [
      | inl e ↦
          let none_left : num / 10 ≡ 0 = (==_iff (num / 10) 0).0 e in
          let m1 = store (store m video 48) (video + 1) (colour % 256) in
          let same : (a : ℕ) → (a < video) ⊎ (video + 2 ≤ a) → m1 a ≡ m a =
            λ a h. rw (ne→== a (video + 1) (omega arith), ne→== a video (omega arith)) refl in
          let (m'', done, is) =
            put_digit-IsShown 10 video colour 0 0 (num % 10 + 48) m1 m1 byte
              (empty-IsShown 10 video colour m1) in
          let it : 0 * 10 + digit_value (num % 10 + 48) ≡ num = omega arith in
          (
            1,
            m'',
            rw (ne→== num 0 ne, e) done,
            IsShown-first 10 video colour num 1 m m1 m'' same (omega arith)
                (coe 0 1 (i. IsShown 10 video colour (it i) 1 m1 m'') is),
            omega arith,
          )
      | inr e ↦
          let more : num / 10 ≢ 0 = λ z. false≢true (sym e ∙ (==_iff (num / 10) 0).1 z) in
          let (count, m', run, is, some_cell) =
            print_nat_lem fuel video colour (num / 10) m (omega (arith, pow-suc 10 fuel)) more in
          let (m'', done, is') =
            put_digit-IsShown 10 video colour (num / 10) count (num % 10 + 48) m m' byte is in
          (
            suc count,
            m'',
            rw (ne→== num 0 ne, run) done,
            coe 0 1 (i. IsShown 10 video colour (whole i) (suc count) m m'') is',
            omega arith,
          )
    ]

-- The memory with a minus sign and its colour.
abbrev pub signed : (video colour : ℕ) → Memory → Memory
unfolding store
signed video colour m = store (store m video 45) (video + 1) (colour % 256)

-- `printInt` terminates on every `int` but 0 and the least, within 11 calls. For a positive
-- number it writes the decimal digits from the given place on, each with the colour beside it, and no
-- other byte. For a negative number it writes a minus sign there and the digits of the absolute value
-- behind it. The answer is the number of bytes of the digits alone: the sign is not counted, so what
-- is printed next is written over the last digit of a negative number.
pub print_int_lem :
    (fuel video colour n : ℕ) (m : Memory)
    → suc n < 10 ^ fuel
    → suc n < 2 ^ 31
    → ((count : ℕ) × (m' : Memory) × (print_int (suc fuel) video colour (pos (suc n)) m
          ≡ ok (2 * count, m'))
        × IsShown 10 video colour (suc n) count m m'
        × (0 < count))
      × ((count : ℕ) × (m' : Memory) × (print_int (suc fuel) video colour (negsuc n) m
            ≡ ok (2 * count, m'))
          × IsShown 10 (video + 2) colour (suc n) count (signed video colour m) m'
          × (m' video ≡ 45))
unfolding print_int store
print_int_lem fuel video colour n m h small =
    let (count, m', run, is, some_cell) =
      print_nat_lem fuel (video + 2) colour (suc n) (signed video colour m) h (omega arith) in
    (
      print_nat_lem fuel video colour (suc n) m h (omega arith),
      (
        count,
        m',
        rw (ne→== n (2 ^ 31 - 1) (omega arith)) run,
        is,
        is.kept video (omega arith)
            ∙ rw (ne→== video (video + 1) (omega arith), eq→== video video refl) refl,
      ),
    )
