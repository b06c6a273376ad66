-- ===== src/Math/Tests.antt =====
-- The field "017".
use sbunix_public.Base.{ℕ, ◌≡◌, arith, refl, ◌==◌, if◌then◌else◌}
use sbunix_public.Memory.{Memory}
use sbunix_public.Math.{
  is_digit, octal_rounds, decimal_rounds, octal_to_binary, octal_string_to_decimal, oct2bin,
}
use sbunix_public.Math.Octal.{oct2bin_lem}

abbrev field : Memory
field a = if a == 5 then 48 else (if a == 6 then 49 else 55)

oct2bin_of_field : oct2bin field 5 3 ≡ 15
oct2bin_of_field =
    oct2bin_lem field 5 3 15
      (
        0,
        15,
        refl,
        refl,
        omega arith,
        (1, 7, refl, refl, omega arith, (7, 0, refl, refl, omega arith, refl)),
      )
      (omega arith)

-- "10000000000" shows 1073741824, but its first digit is counted eleven times.
abbrev power_of_two : Memory
power_of_two a = if a == 5 then 49 else 48

octal_to_binary_of_power : octal_to_binary power_of_two 5 ≡ 1227133513
unfolding octal_to_binary octal_rounds is_digit
octal_to_binary_of_power = refl

-- A field without digits.
octal_string_to_decimal_of_blank : octal_string_to_decimal (λ (a : ℕ). 32) 5 ≡ 0
unfolding octal_string_to_decimal decimal_rounds is_digit
octal_string_to_decimal_of_blank = refl
