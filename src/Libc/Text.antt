-- ===== src/Libc/Text.antt =====
-- What `printf` of libc/puts.c hands to the system call for a text without conversions.
use sbunix_public.Base.{
  ℕ, zero, suc, ◌+◌, ◌%◌, ◌<◌, ◌≤◌, ◌≡◌, ◌≢◌, ◌⊎◌, inl, inr, refl, sym, ap, ◌∙◌, arith, ltb, eq→==,
  ne→==, false, Bool-cases, List, [], ◌∷◌, length, get_or, Run, ok, fault, ltb→lt,
}
use sbunix_public.Memory.{Memory, store}
use sbunix_public.Print.Format.{Argument}
use sbunix_public.Libc.{eof, puts, putchar, put_byte, put_plain, printf_loop, printf}

pub data HasNoPercent : List ℕ → Type 0 where
  no_char : HasNoPercent []
  char : (ch : ℕ) (fmt : List ℕ) → ch ≢ 37 → HasNoPercent fmt → HasNoPercent (ch ∷ fmt)

-- The buffer holds the text from an index on, and a NUL behind it; what stood before is kept.
pub record IsBuffered (text : List ℕ) (current : ℕ) (b b' : Memory) : Type 0 where
  pub chars : (k : ℕ) → k < length text → b' (current + k) ≡ get_or text k 0 % 256
  pub nul : b' (current + length text) ≡ 0
  pub kept : (i : ℕ) → i < current → b' i ≡ b i

-- What comes of a text: the buffer, if it has room for the text and the NUL, and a fault if not.
pub data Outcome (text : List ℕ) (current : ℕ) (b : Memory) (r : Run Memory) : Type 0 where
  fits :
      (b' : Memory)
      → current + length text < 2000
      → r ≡ ok b'
      → IsBuffered text current b b'
      → Outcome text current b r
  overflows : 2000 ≤ current + length text → r ≡ fault → Outcome text current b r

put_byte_cases :
    (i v : ℕ) (b : Memory)
    → ((i < 2000) × (put_byte i v b ≡ ok (store b i (v % 256))))
      ⊎ ((2000 ≤ i) × (put_byte i v b ≡ fault))
unfolding put_byte
put_byte_cases i v b = elim (Bool-cases (ltb i 2000)) [
  | inl e ↦ inl (ltb→lt i 2000 e, rw e refl)
  | inr e ↦ inr (ground arith, rw e refl)
]

store_same : (m : Memory) (a v : ℕ) → store m a v a ≡ v
unfolding store
store_same m a v = rw (eq→== a a refl) refl

store_other : (m : Memory) (a v b : ℕ) → b ≢ a → store m a v b ≡ m b
unfolding store
store_other m a v b ne = rw (ne→== b a ne) refl

IsBuffered-cons :
    (ch current : ℕ) (text : List ℕ) (b b' : Memory)
    → IsBuffered text (current + 1) (store b current (ch % 256)) b'
    → IsBuffered (ch ∷ text) current b b'
IsBuffered-cons ch current text b b' is = record {
  chars = chars_cons;
  nul = ap b' (omega arith) ∙ is.nul;
  kept = λ i lt. is.kept i (omega arith) ∙ store_other b current (ch % 256) i (omega arith);
}
  where
    chars_cons : (k : ℕ) → k < suc (length text) → b' (current + k) ≡ get_or (ch ∷ text) k 0 % 256
    chars_cons zero lt =
        ap b' (omega arith) ∙ is.kept current (omega arith) ∙ store_same b current (ch % 256)
    chars_cons (suc k) lt = ap b' (omega arith) ∙ is.chars k (omega arith)

Outcome-cons :
    (ch current : ℕ) (text : List ℕ) (b : Memory) (r : Run Memory)
    → Outcome text (current + 1) (store b current (ch % 256)) r
    → Outcome (ch ∷ text) current b r
Outcome-cons ch current text b r (fits b' room run is) =
    fits b' (omega arith) run (IsBuffered-cons ch current text b b' is)
Outcome-cons ch current text b r (overflows much run) = overflows (omega arith) run

printf_loop_step :
    (ch current : ℕ) (text : List ℕ) (args : List Argument) (b b' : Memory)
    → ch ≢ 37
    → put_byte current ch b ≡ ok b'
    → printf_loop false (ch ∷ text) current args b ≡ printf_loop false text (current + 1) args b'
unfolding printf_loop put_plain
printf_loop_step ch current text args b b' ne run =
    let e = ne→== ch 37 ne in rw (printf_loop, e, run) refl

printf_loop_fault :
    (ch current : ℕ) (text : List ℕ) (args : List Argument) (b : Memory)
    → ch ≢ 37
    → put_byte current ch b ≡ fault
    → printf_loop false (ch ∷ text) current args b ≡ fault
unfolding printf_loop put_plain
printf_loop_fault ch current text args b ne run =
    let e = ne→== ch 37 ne in rw (printf_loop, e, run) refl

loop_Outcome :
    (text : List ℕ) (current : ℕ) (args : List Argument) (b : Memory)
    → HasNoPercent text
    → Outcome text current b (printf_loop false text current args b)
unfolding printf_loop
loop_Outcome [] current args b no_char = elim (put_byte_cases current 0 b) [
  | inl (lt, run) ↦ fits (store b current 0) (omega arith) run (record {
    chars = λ k lt. absurd (omega arith);
    nul = ap (store b current 0) (omega arith) ∙ store_same b current 0;
    kept = λ i lt. store_other b current 0 i (omega arith);
  })
  | inr (le, run) ↦ overflows (omega arith) run
]
loop_Outcome (ch ∷ text) current args b (char _ _ ne plain) = elim (put_byte_cases current ch b) [
  | inl (lt, run) ↦
      let b1 = store b current (ch % 256) in
      let step = printf_loop_step ch current text args b b1 ne run in
      coe 0 1 (i. Outcome (ch ∷ text) current b (sym step i)) (
        Outcome-cons ch current text b (printf_loop false text (current + 1) args b1)
          (loop_Outcome text (current + 1) args b1 plain))
  | inr (le, run) ↦ overflows (omega arith) (printf_loop_fault ch current text args b ne run)
]

-- `printf` of a text with no '%' in it hands the text with a NUL behind it to the system call, if it
-- has fewer than 2000 characters. A longer text is written past the end of the buffer.
pub printf-Outcome :
    (text : List ℕ) (args : List Argument) (b : Memory)
    → HasNoPercent text
    → Outcome text 0 b (printf text args b)
unfolding printf
printf-Outcome text args b plain = loop_Outcome text 0 args b plain

-- `putchar` answers 0 where the string at the address of its character can be printed.
IsPrintable : (ℕ → Run (List ℕ)) → ℕ → Type 0
IsPrintable format_at c =
    (fmt : List ℕ) × (format_at c ≡ ok fmt) × HasNoPercent fmt × (length fmt < 2000)

putchar_zero :
    (format_at : ℕ → Run (List ℕ)) (c : ℕ) (b : Memory)
    → IsPrintable format_at c
    → putchar format_at c b ≡ ok 0
unfolding IsPrintable putchar
putchar_zero format_at c b (fmt, at, plain, short) = elim (printf-Outcome fmt [] b plain) [
  | fits b' room run is ↦ rw (at, run) refl
  | overflows much run ↦ absurd (omega arith)
]

-- `puts` answers EOF for every string, since `putchar` answers 0 in place of its character.
puts-eof :
    (format_at : ℕ → Run (List ℕ)) (s : List ℕ) (b : Memory)
    → ((c : ℕ) → IsPrintable format_at c)
    → ((ch : ℕ) (rest : List ℕ) → s ≡ ch ∷ rest → ch ≢ 0)
    → puts format_at s b ≡ ok eof
unfolding puts
puts-eof format_at [] b at live = rw (putchar_zero format_at 10 b (at 10)) refl
puts-eof format_at (ch ∷ s) b at live =
    let ne = ne→== 0 ch (λ e. live ch s refl (sym e)) in
    rw (putchar_zero format_at ch b (at ch), ne) refl
