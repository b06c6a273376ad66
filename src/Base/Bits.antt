-- ===== src/Base/Bits.antt =====
-- Masks and flags on words: the laws of `&` and `|` that the paging code relies on.
use Prim.Native.Nat.{
  ℕ, zero, suc, ◌+◌, ◌-◌, ◌*◌, ◌/◌, ◌%◌, ◌^◌, ◌≤◌, ◌<◌, min, max, bit_and, bit_or, digits,
  bit_and-bitwise, bit_or-bitwise,
}
use native.Mathlib.Nat.{
  pow-suc, pow-succ', div-div-eq-div-mul, mod-eq_of_lt, mul-add-mod_self_left, div-add-mod, mod-lt,
  one-le-pow,
}
use mathlib.Core.Path.{◌≡◌, refl, ap, sym, ◌∙◌}
use native.Mathlib.Omega.{arith}

-- The recursion on digits that both operations stand for: `z` takes the rest of the second number
-- when the first has run out, `f` takes two digits.
module _ (z : ℕ → ℕ) (f : ℕ → ℕ → ℕ) where
  run_out : (rounds b : ℕ) → digits z f rounds zero b ≡ z b
  run_out zero b = refl
  run_out (suc rounds) b = refl

  -- More rounds than digits change nothing.
  settled :
      (rounds more a b : ℕ) → a ≤ rounds → digits z f (more + rounds) a b ≡ digits z f rounds a b
  settled rounds more zero b h = run_out (more + rounds) b ∙ sym (run_out rounds b)
  settled zero more (suc a) b h = absurd (omega arith)
  settled (suc rounds) more (suc a) b h =
      let e : more + suc rounds ≡ suc (more + rounds) = omega arith in
      let next : digits z f (more + rounds) (suc a / 2) (b / 2)
          ≡ digits z f rounds (suc a / 2) (b / 2) =
        settled rounds more (suc a / 2) (b / 2) (omega arith) in
      ap (λ (n : ℕ). digits z f n (suc a) b) e ∙ ap (λ (t : ℕ). t * 2 + f (suc a % 2) (b % 2)) next

  -- The lowest digit split off.
  lowest :
      ((b : ℕ) → z b ≡ z (b / 2) * 2 + f 0 (b % 2))
      → (a b : ℕ) → digits z f a a b ≡ digits z f (a / 2) (a / 2) (b / 2) * 2 + f (a % 2) (b % 2)
  lowest rest zero b = rest b
  lowest rest (suc a) b =
      let half = suc a / 2 in
      let e : a ≡ a - half + half = omega arith in
      let same : digits z f a half (b / 2) ≡ digits z f half half (b / 2) =
        ap (λ (n : ℕ). digits z f n half (b / 2)) e
        ∙ settled half (a - half) half (b / 2) (omega arith) in
      ap (λ (t : ℕ). t * 2 + f (suc a % 2) (b % 2)) same

and_lowest : (a b : ℕ) → bit_and a b ≡ bit_and (a / 2) (b / 2) * 2 + min (a % 2) (b % 2)
and_lowest a b = omega (
  arith,
  bit_and-bitwise a b,
  bit_and-bitwise (a / 2) (b / 2),
  lowest (λ _. 0) min (λ b. omega arith) a b,
)

or_lowest : (a b : ℕ) → bit_or a b ≡ bit_or (a / 2) (b / 2) * 2 + max (a % 2) (b % 2)
or_lowest a b = omega (
  arith,
  bit_or-bitwise a b,
  bit_or-bitwise (a / 2) (b / 2),
  lowest (λ b. b) max (λ b. omega arith) a b,
)

bit_or-zero_left : (b : ℕ) → bit_or 0 b ≡ b
bit_or-zero_left b = bit_or-bitwise 0 b

-- Zero on the right, by the size of the left.
zero_right : (size a : ℕ) → a ≤ size → (bit_and a 0 ≡ 0) × (bit_or a 0 ≡ a)
zero_right zero a h = let e : a ≡ 0 = omega arith in rw e (refl, refl)
zero_right (suc size) zero h = (refl, refl)
zero_right (suc size) (suc a) h =
    let (conj, disj) = zero_right size (suc a / 2) (omega arith) in
    (omega (arith, and_lowest (suc a) 0, conj), omega (arith, or_lowest (suc a) 0, disj))

-- Masks by doubling.
bit_and_double : (a m : ℕ) → bit_and a (m * 2) ≡ bit_and (a / 2) m * 2
bit_and_double a m =
    let e : m * 2 / 2 ≡ m = omega arith in
    let q : bit_and (a / 2) (m * 2 / 2) ≡ bit_and (a / 2) m = ap (bit_and (a / 2)) e in
    omega (arith, and_lowest a (m * 2), q)

bit_and_odd : (a m : ℕ) → bit_and a (m * 2 + 1) ≡ bit_and (a / 2) m * 2 + a % 2
bit_and_odd a m =
    let e : (m * 2 + 1) / 2 ≡ m = omega arith in
    let q : bit_and (a / 2) ((m * 2 + 1) / 2) ≡ bit_and (a / 2) m = ap (bit_and (a / 2)) e in
    omega (arith, and_lowest a (m * 2 + 1), q)

-- `a & (m << k)` keeps the bits of `a` from bit `k` on that `m` has.
pub bit_and-shift : (k a m : ℕ) → bit_and a (m * 2 ^ k) ≡ bit_and (a / 2 ^ k) m * 2 ^ k
bit_and-shift zero a m =
    let e : m * 2 ^ 0 ≡ m = omega arith in
    let f : a / 2 ^ 0 ≡ a = omega arith in rw (e, f) (omega arith)
bit_and-shift (suc k) a m =
    let e : m * 2 ^ suc k ≡ m * 2 ^ k * 2 = omega (arith, ap (λ (t : ℕ). m * t) (pow-suc 2 k)) in
    let f : a / 2 ^ suc k ≡ a / 2 / 2 ^ k =
      ap (λ (t : ℕ). a / t) (pow-succ' 2 k) ∙ sym (div-div-eq-div-mul a 2 (2 ^ k)) in
    ap (bit_and a) e
    ∙ bit_and_double a (m * 2 ^ k)
    ∙ ap (λ (t : ℕ). t * 2) (bit_and-shift k (a / 2) m)
    ∙ omega (
      arith,
      ap (λ (t : ℕ). bit_and t m * 2 ^ suc k) f,
      ap (λ (t : ℕ). bit_and (a / 2 / 2 ^ k) m * t) (pow-suc 2 k),
    )

mod_double : (a p : ℕ) → 0 < p → a / 2 % p * 2 + a % 2 ≡ a % (2 * p)
mod_double a p h =
    let split : 2 * p * (a / 2 / p) + (a / 2 % p * 2 + a % 2) ≡ a =
      omega (arith, ap (λ (t : ℕ). 2 * t) (div-add-mod (a / 2) p)) in
    let small : a / 2 % p * 2 + a % 2 < 2 * p = omega (arith, mod-lt (a / 2) h) in
    sym (mod-eq_of_lt small)
    ∙ sym (mul-add-mod_self_left (2 * p) (a / 2 / p) (a / 2 % p * 2 + a % 2))
    ∙ ap (λ (t : ℕ). t % (2 * p)) split

-- `a & (2^k - 1)` is the remainder.
pub bit_and-ones : (k a : ℕ) → bit_and a (2 ^ k - 1) ≡ a % 2 ^ k
bit_and-ones zero a = omega (arith, (zero_right a a (omega arith)).0)
bit_and-ones (suc k) a =
    let pos : 0 < 2 ^ k = one-le-pow k 2 (omega arith) in
    let e : 2 ^ suc k - 1 ≡ (2 ^ k - 1) * 2 + 1 = omega (arith, pow-suc 2 k) in
    ap (bit_and a) e
    ∙ bit_and_odd a (2 ^ k - 1)
    ∙ ap (λ (t : ℕ). t * 2 + a % 2) (bit_and-ones k (a / 2))
    ∙ mod_double a (2 ^ k) pos
    ∙ ap (λ (t : ℕ). a % t) (sym (pow-succ' 2 k))

-- `a & (ones << k)`, a mask for the `w` bits from bit `k` on.
pub bit_and-field : (k w a : ℕ) → bit_and a ((2 ^ w - 1) * 2 ^ k) ≡ a / 2 ^ k % 2 ^ w * 2 ^ k
bit_and-field k w a =
    bit_and-shift k a (2 ^ w - 1) ∙ ap (λ (t : ℕ). t * 2 ^ k) (bit_and-ones w (a / 2 ^ k))

-- `|` of a multiple of 2^k and a number below 2^k adds them.
pub bit_or-add : (k c b : ℕ) → b < 2 ^ k → bit_or (c * 2 ^ k) b ≡ c * 2 ^ k + b
bit_or-add zero c b h =
    let e : b ≡ 0 = omega arith in
    rw e (omega (arith, (zero_right (c * 2 ^ 0) (c * 2 ^ 0) (omega arith)).1))
bit_or-add (suc k) c b h =
    let e : c * 2 ^ suc k ≡ c * 2 ^ k * 2 = omega (arith, ap (λ (t : ℕ). c * t) (pow-suc 2 k)) in
    let f : c * 2 ^ k * 2 / 2 ≡ c * 2 ^ k = omega arith in
    ap (λ (t : ℕ). bit_or t b) e
    ∙ omega (
      arith,
      or_lowest (c * 2 ^ k * 2) b,
      ap (λ (t : ℕ). bit_or t (b / 2)) f,
      bit_or-add k c (b / 2) (omega (arith, pow-suc 2 k)),
      e,
    )

-- The same with the two sides of `|` exchanged.
pub bit_or-add_swap : (k c b : ℕ) → b < 2 ^ k → bit_or b (c * 2 ^ k) ≡ c * 2 ^ k + b
bit_or-add_swap zero c b h =
    let e : b ≡ 0 = omega arith in rw e (omega (arith, bit_or-zero_left (c * 2 ^ 0)))
bit_or-add_swap (suc k) c b h =
    let e : c * 2 ^ suc k ≡ c * 2 ^ k * 2 = omega (arith, ap (λ (t : ℕ). c * t) (pow-suc 2 k)) in
    let f : c * 2 ^ k * 2 / 2 ≡ c * 2 ^ k = omega arith in
    ap (λ (t : ℕ). bit_or b t) e
    ∙ omega (
      arith,
      or_lowest b (c * 2 ^ k * 2),
      ap (λ (t : ℕ). bit_or (b / 2) t) f,
      bit_or-add_swap k c (b / 2) (omega (arith, pow-suc 2 k)),
      e,
    )
