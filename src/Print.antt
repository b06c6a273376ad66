-- ===== src/Print.antt =====
-- The number printers of sys/kprintf.c, which write a character and its colour for each digit. Memory
-- is bytes. The recursion on the digits takes fuel.
pub mod Digits
pub mod Screen
pub mod Format
mod Tests
use sbunix_public.Base.{
  ◌^◌, ℕ, zero, suc, ◌+◌, ◌-◌, ◌*◌, ◌/◌, ◌%◌, Run, ok, out_of_fuel, ◌>>=◌, leb, ◌==◌, if◌then◌else◌,
}
use sbunix_public.Memory.{Memory, store}

-- A C int.
pub data ℤ : Type 0 where
  pos : ℕ → ℤ
  negsuc : ℕ → ℤ

-- `if (digit >= 10) digit += 87; else digit += 48;`
unfoldable pub hex_digit : ℕ → ℕ
hex_digit digit = if leb 10 digit then digit + 87 else digit + 48

-- `*(video + counter) = digit; *(video + counter + 1) = colour; return 2 + counter;`
pub put_digit : (video colour digit : ℕ) → ℕ × Memory → Run (ℕ × Memory)
unfolding store
put_digit video colour digit (counter, m) = ok (
  2 + counter,
  store (store m (video + counter) (digit % 256)) (video + counter + 1) (colour % 256),
)

pub print_pointer : (fuel video colour num : ℕ) → Memory → Run (ℕ × Memory)
print_pointer zero video colour num m = out_of_fuel
print_pointer (suc fuel) video colour num m =
    let rest = print_pointer fuel video colour (num / 16) m in
    if num == 0 then ok (0, m) else (rest >>= put_digit video colour (hex_digit (num % 16)))

-- The digits of a negative number are negative, and stay below 10.
pub print_hex_negative : (fuel video colour num : ℕ) → Memory → Run (ℕ × Memory)
print_hex_negative zero video colour num m = out_of_fuel
print_hex_negative (suc fuel) video colour num m =
    let rest = print_hex_negative fuel video colour (num / 16) m in
    if num == 0 then ok (0, m) else (rest >>= put_digit video colour (48 + 256 - num % 16))

pub print_hex : (fuel video colour : ℕ) → ℤ → Memory → Run (ℕ × Memory)
print_hex fuel video colour (pos num) m = print_pointer fuel video colour num m
print_hex fuel video colour (negsuc num) m = print_hex_negative fuel video colour (suc num) m

pub print_nat : (fuel video colour num : ℕ) → Memory → Run (ℕ × Memory)
unfolding store
print_nat zero video colour num m = out_of_fuel
print_nat (suc fuel) video colour num m =
    let rest = print_nat fuel video colour (num / 10) m in
    if num == 0
    then ok (0, store (store m video 48) (video + 1) (colour % 256))
    else (rest >>= put_digit video colour (num % 10 + 48))

-- The sign stands at `video`, and `*(video)++` moves the pointer behind it, one byte each time. The
-- least `int` is its own negative where the product wraps round: the call for the other digits writes
-- a second sign, and the last digit is -8.
pub print_int : (fuel video colour : ℕ) → ℤ → Memory → Run (ℕ × Memory)
unfolding store
print_int fuel video colour (pos num) m = print_nat fuel video colour num m
print_int fuel video colour (negsuc num) m =
    let signed =
      λ (place : ℕ). λ (m' : Memory). store (store m' place 45) (place + 1) (colour % 256) in
    let least = print_nat fuel (video + 4) colour 214748364 (signed (video + 2) (signed video m)) in
    if num == 2 ^ 31 - 1
    then (least >>= put_digit (video + 2) colour 40)
    else print_nat fuel (video + 2) colour (suc num) (signed video m)
