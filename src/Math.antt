-- ===== src/Math.antt =====
-- The conversions and `power` of sys/math.c. The messages are left out.
pub mod Octal
mod Tests
use sbunix_public.Base.{
  ltb, ◌&&◌, leb, Bool, ℕ, zero, suc, ◌+◌, ◌-◌, ◌*◌, ◌%◌, ◌^◌, ◌==◌, if◌then◌else◌,
}
use sbunix_public.Memory.{Memory}

-- The 32 bits of an `int`, as 64 bits.
pub sign_extend : ℕ → ℕ
sign_extend n = if ltb n (2 ^ 31) then n else n + (2 ^ 64 - 2 ^ 32)

-- The loop of `oct2bin`, with `size` rounds to go. `n` is the 32 bits of an `int`, which wrap round.
pub oct2bin_from : Memory → (c size n : ℕ) → ℕ
oct2bin_from m c zero n = n
oct2bin_from m c (suc size) n =
    oct2bin_from m (c + 1) size ((n * 8 + (m c + (2 ^ 32 - 48))) % 2 ^ 32)

pub oct2bin : Memory → (str size : ℕ) → ℕ
oct2bin m str size = oct2bin_from m str size 0

-- `while (--pow) answer *= base;`, for the `pow` that is left after the decrement.
pub power_loop : (base pow answer : ℕ) → ℕ
power_loop base zero answer = answer
power_loop base (suc pow) answer = power_loop base pow (answer * base % 2 ^ 64)

pub power : (base pow : ℕ) → ℕ
power base zero = 1
power base (suc pow) = power_loop base pow base

-- `*num >= '0' && *num <= '9'`
pub is_digit : (ch : ℕ) → Bool
is_digit ch = leb 48 ch && leb ch 57

-- The loop of `octalToBinary`, with `rounds` to go until `counter` is 11. `num` stays where it is.
pub octal_rounds : Memory → (num rounds answer : ℕ) → ℕ
octal_rounds m num zero answer = answer
octal_rounds m num (suc rounds) answer =
    let rest = octal_rounds m num rounds ((answer * 8 + (m num - 48)) % 2 ^ 32) in
    if is_digit (m num) then rest else answer

pub octal_to_binary : Memory → (num : ℕ) → ℕ
octal_to_binary m num = octal_rounds m num 11 0

-- The loop of `octalStringToDecimal`, which `counter` ends, as `t` counts as far from below. In the
-- last round `counter - 1` wraps round to the largest exponent.
pub decimal_rounds : Memory → (num counter answer : ℕ) → ℕ
decimal_rounds m num zero answer = answer
decimal_rounds m num (suc counter) answer =
    let exponent = (counter + (2 ^ 64 - 1)) % 2 ^ 64 in
    let rest = decimal_rounds m num counter ((m num - 48) * power 8 exponent % 2 ^ 64) in
    if is_digit (m num) then rest else answer

pub octal_string_to_decimal : Memory → (num : ℕ) → ℕ
octal_string_to_decimal m num = decimal_rounds m num 11 0
