-- ===== src/Libc/Tests.antt =====
-- `printf` of "Hi\n", and of a number and a pointer.
use sbunix_public.Base.{ℕ, ◌≡◌, refl, arith, Run, ok, ◌>>=◌, List, [], ◌∷◌}
use sbunix_public.Memory.{Memory, store}
use sbunix_public.Print.{negsuc, hex_digit}
use sbunix_public.Print.Format.{int, pointer}
use sbunix_public.Libc.{
  printf, printf_loop, put_plain, printf_convert, printf_int, print_int, put_byte, print_nat,
  add_digit, printf_pointer, print_pointer,
}
use sbunix_public.Libc.Text.{HasNoPercent, no_char, char, Outcome, printf-Outcome}

abbrev found : Memory
found i = 7

hi-HasNoPercent : HasNoPercent (72 ∷ 105 ∷ 10 ∷ [])
hi-HasNoPercent =
    char 72 (105 ∷ 10 ∷ []) (omega arith)
      (char 105 (10 ∷ []) (omega arith) (char 10 [] (omega arith) no_char))

printf-Outcome_example : Outcome (72 ∷ 105 ∷ 10 ∷ []) 0 found (printf (72 ∷ 105 ∷ 10 ∷ []) [] found)
printf-Outcome_example = printf-Outcome (72 ∷ 105 ∷ 10 ∷ []) [] found hi-HasNoPercent

-- The first four bytes of the buffer.
abbrev first_bytes : Run Memory → Run (List ℕ)
first_bytes r = r >>= λ b. ok (b 0 ∷ b 1 ∷ b 2 ∷ b 3 ∷ [])

-- "%d" with -5: the sign is not counted, and the NUL is written over the digit.
negative :
    first_bytes (printf (37 ∷ 100 ∷ []) (int (negsuc 4) ∷ []) found) ≡ ok (45 ∷ 0 ∷ 7 ∷ 7 ∷ [])
unfolding printf printf_loop put_plain printf_convert printf_int print_int put_byte print_nat
    add_digit store hex_digit
negative = refl

-- "%p" with 0x1f.
hexadecimal :
    first_bytes (printf (37 ∷ 112 ∷ []) (pointer 0x1f ∷ []) found) ≡ ok (48 ∷ 120 ∷ 49 ∷ 102 ∷ [])
unfolding printf printf_loop put_plain printf_convert printf_pointer print_pointer put_byte
    add_digit store hex_digit
hexadecimal = refl
