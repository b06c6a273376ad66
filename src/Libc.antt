-- ===== src/Libc.antt =====
-- `printf`, `putchar` and `puts` of libc/puts.c and libc/putchar.c. A format and a string are the bytes
-- before their NUL. The buffer of `printf` is a function from indices to bytes; a write behind its
-- 2000 bytes is a fault.
pub mod Text
mod Tests
use sbunix_public.Base.{
  ◌^◌, ℕ, zero, suc, ◌+◌, ◌-◌, ◌/◌, ◌%◌, Bool, true, false, List, [], ◌∷◌, Run, ok, fault,
  out_of_fuel, ◌>>=◌, ltb, ◌==◌, if◌then◌else◌,
}
use sbunix_public.Memory.{Memory, store}
use sbunix_public.Print.{ℤ, pos, negsuc, hex_digit}
use sbunix_public.Print.Format.{Argument, string, int, pointer, low_byte}

abbrev pub buffer_size : ℕ
buffer_size = 2000

unfoldable pub put_byte : (i v : ℕ) → Memory → Run Memory
unfolding store
put_byte i v buffer = if ltb i buffer_size then ok (store buffer i (v % 256)) else fault

-- `*(current + counter) = digit; return 1 + counter;`
unfoldable pub add_digit : (current digit : ℕ) → ℕ × Memory → Run (ℕ × Memory)
add_digit current digit (counter, buffer) =
    put_byte (current + counter) digit buffer >>= λ b. ok (1 + counter, b)

-- `printPointer`, and `printHex` of a number that is not negative.
unfoldable pub print_pointer : (fuel current num : ℕ) → Memory → Run (ℕ × Memory)
print_pointer zero current num buffer = out_of_fuel
print_pointer (suc fuel) current num buffer =
    let rest = print_pointer fuel current (num / 16) buffer in
    if num == 0 then ok (0, buffer) else (rest >>= add_digit current (hex_digit (num % 16)))

-- The digits of a negative number are negative, and stay below 10.
unfoldable pub print_hex_negative : (fuel current num : ℕ) → Memory → Run (ℕ × Memory)
print_hex_negative zero current num buffer = out_of_fuel
print_hex_negative (suc fuel) current num buffer =
    let rest = print_hex_negative fuel current (num / 16) buffer in
    if num == 0 then ok (0, buffer) else (rest >>= add_digit current (48 + 256 - num % 16))

unfoldable pub print_hex : (fuel current : ℕ) → ℤ → Memory → Run (ℕ × Memory)
print_hex fuel current (pos num) buffer = print_pointer fuel current num buffer
print_hex fuel current (negsuc num) buffer = print_hex_negative fuel current (suc num) buffer

unfoldable pub print_nat : (fuel current num : ℕ) → Memory → Run (ℕ × Memory)
print_nat zero current num buffer = out_of_fuel
print_nat (suc fuel) current num buffer =
    let rest = print_nat fuel current (num / 10) buffer in
    if num == 0
    then (put_byte current 48 buffer >>= λ b. ok (0, b))
    else (rest >>= add_digit current (num % 10 + 48))

-- `printInt`: the sign is written at `current`, and `*(current)++` moves behind it. The least `int` is
-- its own negative where the product wraps round: it gets a second sign, and its last digit is -8.
unfoldable pub print_int : (fuel current : ℕ) → ℤ → Memory → Run (ℕ × Memory)
print_int fuel current (pos num) buffer = print_nat fuel current num buffer
print_int fuel current (negsuc num) buffer =
    let least = λ (b : Memory).
      put_byte (current + 1) 45 b
      >>= print_nat fuel (current + 2) 214748364
      >>= add_digit (current + 1) 40 in
    let digits = λ (b : Memory).
      if num == 2 ^ 31 - 1 then least b else print_nat fuel (current + 1) (suc num) b in
    put_byte current 45 buffer >>= digits

-- What is left of a format: the next index, the arguments not read, and the buffer.
abbrev pub Left : Type 0
Left = ℕ × List Argument × Memory

unfoldable pub write_string : (current : ℕ) → List ℕ → Memory → Run (ℕ × Memory)
write_string current [] buffer = ok (current, buffer)
write_string current (ch ∷ str) buffer =
    put_byte current ch buffer >>= write_string (current + 1) str

unfoldable pub printf_string : (current : ℕ) → List Argument → Memory → Run Left
printf_string current (string str ∷ args) buffer =
    write_string current str buffer >>= λ r. ok (r.0, args, r.1)
printf_string current args buffer = fault

unfoldable pub printf_char : (current : ℕ) → List Argument → Memory → Run Left
printf_char current (int num ∷ args) buffer =
    put_byte current (low_byte num) buffer >>= λ b. ok (current + 1, args, b)
printf_char current args buffer = fault

unfoldable pub printf_int :
    (ℤ → Memory → Run (ℕ × Memory)) → (current : ℕ) → List Argument → Memory → Run Left
printf_int print current (int num ∷ args) buffer =
    print num buffer >>= λ r. ok (current + r.0, args, r.1)
printf_int print current args buffer = fault

unfoldable pub printf_pointer : (current : ℕ) → List Argument → Memory → Run Left
printf_pointer current (pointer num ∷ args) buffer =
    put_byte current 48 buffer
    >>= put_byte (current + 1) 120
    >>= print_pointer 17 (current + 2) num
    >>= λ r. ok (current + 2 + r.0, args, r.1)
printf_pointer current args buffer = fault

-- The `switch` on the character behind a '%'.
unfoldable pub printf_convert : (specifier current : ℕ) → List Argument → Memory → Run Left
printf_convert specifier current args buffer =
    if specifier == 115
    then printf_string current args buffer
    else if specifier == 99
    then printf_char current args buffer
    else if specifier == 100
    then printf_int (print_int 17 current) current args buffer
    else if specifier == 120
    then printf_int (print_hex 17 current) current args buffer
    else if specifier == 112
    then printf_pointer current args buffer
    else ok (current, args, buffer)

-- A '%' only moves the format on.
unfoldable pub put_plain : (ch current : ℕ) → Memory → Run (ℕ × Memory)
put_plain ch current buffer =
    if ch == 37
    then ok (current, buffer)
    else (put_byte current ch buffer >>= λ b. ok (current + 1, b))

-- The loop over the format, with the NUL behind it; the flag says that a '%' has been read.
unfoldable pub printf_loop : Bool → List ℕ → (current : ℕ) → List Argument → Memory → Run Memory
printf_loop true [] current args buffer = fault
printf_loop false [] current args buffer = put_byte current 0 buffer
printf_loop true (specifier ∷ fmt) current args buffer =
    printf_convert specifier current args buffer >>= λ r. printf_loop false fmt r.0 r.1 r.2
printf_loop false (ch ∷ fmt) current args buffer =
    put_plain ch current buffer >>= λ r. printf_loop (ch == 37) fmt r.0 args r.1

-- The buffer, as it was found on the stack, that is handed to system call 1. The answer is 0.
unfoldable pub printf : List ℕ → List Argument → Memory → Run Memory
printf fmt args buffer = printf_loop false fmt 0 args buffer

-- `putchar` takes its character for the address of a format; `format_at` reads the string at an
-- address.
unfoldable pub putchar : (ℕ → Run (List ℕ)) → ℕ → Memory → Run ℕ
putchar format_at c buffer = format_at c >>= λ fmt. printf fmt [] buffer >>= λ _. ok 0

abbrev pub eof : ℤ
eof = negsuc 0

-- `if (putchar(*s) != *s) return EOF;` for each character, and for the newline at the end.
unfoldable pub puts : (ℕ → Run (List ℕ)) → List ℕ → Memory → Run ℤ
puts format_at [] buffer =
    putchar format_at 10 buffer >>= λ r. if r == 10 then ok (pos 0) else ok eof
puts format_at (ch ∷ s) buffer =
    let rest = puts format_at s buffer in
    putchar format_at ch buffer >>= λ r. if r == ch then rest else ok eof
