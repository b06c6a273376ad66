-- ===== src/Math/Octal.antt =====
-- `oct2bin` of sys/math.c reads what stands in the headers of an archive.
use sbunix_public.Base.{
  lt→ltb, ◌≤◌, ◌%◌, ℕ, zero, suc, ◌+◌, ◌-◌, ◌*◌, ◌^◌, ◌<◌, ◌≡◌, arith, refl, ap, ◌∙◌,
}
use native.Mathlib.Nat.{pow-suc}
use sbunix_public.Memory.{Memory}
use sbunix_public.Math.{sign_extend, oct2bin_from, oct2bin}

-- The field from `c` on shows `value` with `size` octal digits, the highest first.
abbrev pub ShowsOctal : Memory → (c size value : ℕ) → Type 0
ShowsOctal m c zero value = value ≡ 0
ShowsOctal m c (suc size) value =
    (digit : ℕ) × (rest : ℕ) × (m c ≡ digit + 48)
    × (value ≡ digit * 8 ^ size + rest)
    × (digit < 8)
    × ShowsOctal m (c + 1) size rest

le-mul_pow : (n size : ℕ) → n ≤ n * 8 ^ size
le-mul_pow n zero = omega arith
le-mul_pow n (suc size) =
    let power : n * 8 ^ suc size ≡ n * (8 ^ size * 8) = ap (λ (t : ℕ). n * t) (pow-suc 8 size) in
    omega (arith, power, le-mul_pow n size)

oct2bin_from_lem :
    (m : Memory) (c size n value : ℕ)
    → ShowsOctal m c size value
    → n * 8 ^ size + value < 2 ^ 32
    → oct2bin_from m c size n ≡ n * 8 ^ size + value
unfolding oct2bin_from
oct2bin_from_lem m c zero n value h small = omega (arith, h)
oct2bin_from_lem m c (suc size) n value (digit, rest, at, sum, low, h) small =
    let power : n * 8 ^ suc size ≡ n * (8 ^ size * 8) = ap (λ (t : ℕ). n * t) (pow-suc 8 size) in
    let whole : (n * 8 + digit) * 8 ^ size + rest ≡ n * 8 ^ suc size + value =
      omega (arith, power, sum) in
    let bound = le-mul_pow (n * 8 + digit) size in
    let ih = oct2bin_from_lem m (c + 1) size (n * 8 + digit) rest h (omega arith) in
    let d : (n * 8 + (m c + (2 ^ 32 - 48))) % 2 ^ 32 ≡ n * 8 + digit = omega arith in
    ap (oct2bin_from m (c + 1) size) d ∙ ih ∙ whole

-- `oct2bin` answers the number that a field of octal digits shows, as far as 32 bits hold it.
pub oct2bin_lem :
    (m : Memory) (str size value : ℕ)
    → ShowsOctal m str size value
    → value < 2 ^ 32
    → oct2bin m str size ≡ value
unfolding oct2bin
oct2bin_lem m str size value h small =
    oct2bin_from_lem m str size 0 value h (omega arith) ∙ omega arith

-- A number that an `int` holds and that is not negative.
pub sign_extend_small : (n : ℕ) → n < 2 ^ 31 → sign_extend n ≡ n
unfolding sign_extend
sign_extend_small n h = rw (lt→ltb n (2 ^ 31) h) refl
