-- ===== src/Print/Format/Returns.antt =====
-- `kprintf` of sys/kprintf.c comes to an end on every format whose arguments fit.
use sbunix_public.Base.{
  ◌-◌, Bool-cases, le→leb, inr, leb, inl, ◌≤◌, ne→==, ◌+◌, ℕ, zero, suc, ◌/◌, ◌^◌, ◌<◌, ◌≡◌, ◌≢◌,
  ◌⊎◌, refl, arith, ◌==◌, Bool, true, false, if◌then◌else◌, eq→==, List, [], ◌∷◌, Run, ok, ◌>>=◌,
}
use native.Mathlib.Nat.{pow-suc}
use sbunix_public.Memory.{store, Memory}
use sbunix_public.Print.Digits.{signed}
use sbunix_public.Print.{
  print_nat, print_int, print_hex, print_hex_negative, ℤ, pos, negsuc, put_digit, print_pointer,
}
use sbunix_public.Print.Format.{
  put_char, scroll_first, convert_char, convert_pointer, check_end, Console, convert_string,
  convert, kprintf, convert_int, kprintf_loop, Argument, string, int, pointer,
}

-- A number of 32 bits, with a bound that leaves out none.
pub data IsInt : ℤ → Type 0 where
  at_least_zero : (n : ℕ) → n < 2 ^ 31 → IsInt (pos n)
  below_zero : (n : ℕ) → n < 2 ^ 31 → IsInt (negsuc n)

-- The arguments that a format reads have the types that it names; the format does not end in a '%'.
pub data Fits : List ℕ → List Argument → Type 0 where
  at_end : (args : List Argument) → Fits [] args
  plain :
      (ch : ℕ) (fmt : List ℕ) (args : List Argument)
      → ch ≢ 37
      → Fits fmt args
      → Fits (ch ∷ fmt) args
  percent_s :
      (str fmt : List ℕ) (args : List Argument)
      → Fits fmt args
      → Fits (37 ∷ 115 ∷ fmt) (string str ∷ args)
  percent_number :
      (specifier : ℕ) (num : ℤ) (fmt : List ℕ) (args : List Argument)
      → (specifier ≡ 99) ⊎ ((specifier ≡ 100) ⊎ (specifier ≡ 120))
      → IsInt num
      → Fits fmt args
      → Fits (37 ∷ specifier ∷ fmt) (int num ∷ args)
  percent_p :
      (num : ℕ) (fmt : List ℕ) (args : List Argument)
      → num < 2 ^ 64
      → Fits fmt args
      → Fits (37 ∷ 112 ∷ fmt) (pointer num ∷ args)

-- A run that comes to an end.
abbrev pub Returns {ℓ} : {A : Type ℓ} → Run A → Type ℓ
Returns {A = A} r = (a : A) × (r ≡ ok a)

-- A printer goes on with a digit behind the rest of the number.
digit-Returns :
    (last : Bool) (video colour digit counter : ℕ) (m : Memory) (rest : Run (ℕ × Memory))
    → Returns rest
    → Returns (if last then ok (counter, m) else (rest >>= put_digit video colour digit))
unfolding put_digit
digit-Returns true video colour digit counter m rest r = (_, refl)
digit-Returns false video colour digit counter m rest (a, run) = rw run (_, refl)

print_pointer-Returns :
    (fuel video colour num : ℕ) (m : Memory)
    → num < 16 ^ fuel
    → Returns (print_pointer (suc fuel) video colour num m)
unfolding print_pointer
print_pointer-Returns zero video colour num m h = rw (eq→== num 0 (omega arith)) (_, refl)
print_pointer-Returns (suc fuel) video colour num m h =
    digit-Returns (num == 0) video colour _ 0 m _
      (print_pointer-Returns fuel video colour (num / 16) m (omega (arith, pow-suc 16 fuel)))

print_nat-Returns :
    (fuel video colour num : ℕ) (m : Memory)
    → num < 10 ^ fuel
    → Returns (print_nat (suc fuel) video colour num m)
unfolding print_nat store
print_nat-Returns zero video colour num m h = rw (eq→== num 0 (omega arith)) (_, refl)
print_nat-Returns (suc fuel) video colour num m h =
    digit-Returns (num == 0) video colour _ 0 _ _
      (print_nat-Returns fuel video colour (num / 10) m (omega (arith, pow-suc 10 fuel)))

print_hex_negative-Returns :
    (fuel video colour num : ℕ) (m : Memory)
    → num < 16 ^ fuel
    → Returns (print_hex_negative (suc fuel) video colour num m)
unfolding print_hex_negative
print_hex_negative-Returns zero video colour num m h = rw (eq→== num 0 (omega arith)) (_, refl)
print_hex_negative-Returns (suc fuel) video colour num m h =
    digit-Returns (num == 0) video colour _ 0 m _
      (print_hex_negative-Returns fuel video colour (num / 16) m (omega (arith, pow-suc 16 fuel)))

print_int-Returns :
    (video : ℕ) (num : ℤ) (m : Memory) → IsInt num → Returns (print_int 17 video 0 num m)
unfolding print_int
print_int-Returns video (pos n) m (at_least_zero _ h) =
    print_nat-Returns 16 video 0 n m (omega arith)
print_int-Returns video (negsuc n) m (below_zero _ h) = elim (Bool-cases (n == 2 ^ 31 - 1)) [
  | inl e ↦
      let signs = signed (video + 2) 0 (signed video 0 m) in
      rw e (
        digit-Returns false (video + 2) 0 40 0 signs _
          (print_nat-Returns 16 (video + 4) 0 214748364 signs (omega arith)))
  | inr e ↦ rw e (print_nat-Returns 16 (video + 2) 0 (suc n) (signed video 0 m) (omega arith))
]

print_hex-Returns :
    (video : ℕ) (num : ℤ) (m : Memory) → IsInt num → Returns (print_hex 17 video 0 num m)
unfolding print_hex
print_hex-Returns video (pos n) m (at_least_zero _ h) =
    print_pointer-Returns 16 video 0 n m (omega arith)
print_hex-Returns video (negsuc n) m (below_zero _ h) =
    print_hex_negative-Returns 16 video 0 (suc n) m (omega arith)

-- A conversion that reads one argument.
abbrev Converts : (specifier : ℕ) → Argument → Type 0
Converts specifier arg =
    (video : ℕ) (args : List Argument) (m : Memory)
    → (v : ℕ) × (m' : Memory) × (convert specifier video (arg ∷ args) m ≡ ok (v, args, m'))

number-Converts :
    (print : ℤ → Memory → Run (ℕ × Memory)) (video : ℕ) (num : ℤ) (args : List Argument)
    (m : Memory)
    → Returns (print num m)
    → (v : ℕ) × (m' : Memory) × (convert_int print video (int num ∷ args) m ≡ ok (v, args, m'))
unfolding convert_int
number-Converts print video num args m (r, run) = rw run (_, _, refl)

specifier-Converts :
    (specifier : ℕ) (num : ℤ)
    → (specifier ≡ 99) ⊎ ((specifier ≡ 100) ⊎ (specifier ≡ 120))
    → IsInt num
    → Converts specifier (int num)
unfolding convert convert_char
specifier-Converts specifier num (inl e) h video args m = rw e (_, _, refl)
specifier-Converts specifier num (inr (inl e)) h video args m =
    rw e (number-Converts (print_int 17 video 0) video num args m (print_int-Returns video num m h))
specifier-Converts specifier num (inr (inr e)) h video args m =
    rw e (number-Converts (print_hex 17 video 0) video num args m (print_hex-Returns video num m h))

string-Converts : (str : List ℕ) → Converts 115 (string str)
unfolding convert convert_string
string-Converts str video args m = (_, _, refl)

pointer-Converts : (num : ℕ) → num < 2 ^ 64 → Converts 112 (pointer num)
unfolding convert convert_pointer
pointer-Converts num h video args m =
    let (r, run) =
      print_pointer-Returns 16 (video + 4) 0 num (put_char (put_char m video 48) (video + 2) 120)
        (omega arith) in
    rw run (_, _, refl)

-- A '%' and the conversion behind it.
loop_percent :
    (specifier : ℕ) (arg : Argument) (fmt : List ℕ) (args : List Argument) (r : ℕ × Console)
    → Converts specifier arg
    → ((r' : ℕ × Console) → Returns (kprintf_loop false fmt args r'))
    → Returns (kprintf_loop false (37 ∷ specifier ∷ fmt) (arg ∷ args) r)
unfolding kprintf_loop
loop_percent specifier arg fmt args (video, s) converts rest =
    let r = scroll_first (video, s) in
    let (v, m', run) = converts r.0 args r.1.memory in
    rw run (rest (check_end v (record r.1 { memory = m' })))

loop-Returns :
    (fmt : List ℕ) (args : List Argument) (r : ℕ × Console)
    → Fits fmt args
    → Returns (kprintf_loop false fmt args r)
unfolding kprintf_loop
loop-Returns fmt args (video, s) (at_end _) = (_, refl)
loop-Returns fmt args (video, s) (plain ch fmt' _ ne fits) =
    rw (kprintf_loop, ne→== ch 37 ne) (loop-Returns fmt' args _ fits)
loop-Returns fmt args r (percent_s str fmt' args' fits) =
    loop_percent 115 (string str) fmt' args' r (string-Converts str)
      (λ r'. loop-Returns fmt' args' r' fits)
loop-Returns fmt args r (percent_number specifier num fmt' args' is h fits) =
    loop_percent specifier (int num) fmt' args' r (specifier-Converts specifier num is h)
      (λ r'. loop-Returns fmt' args' r' fits)
loop-Returns fmt args r (percent_p num fmt' args' h fits) =
    loop_percent 112 (pointer num) fmt' args' r (pointer-Converts num h)
      (λ r'. loop-Returns fmt' args' r' fits)

-- A call of `kprintf` whose arguments have the types that its conversions (%s, %c, %d, %x, %p) name
-- comes to an end without a fault, and sets the screen to scroll when it stops at or behind the end.
-- Numbers for %c, %d and %x have 32 bits, those for %p 64 bits. The format has no other conversion and
-- does not end in a '%'.
pub kprintf-Returns :
    (fmt : List ℕ) (args : List Argument) (s : Console)
    → Fits fmt args
    → (t : Console) × (kprintf fmt args s ≡ ok t)
      × (t.video_card_end ≤ t.video_card_position → t.scroll_for_next_call ≡ true)
unfolding kprintf check_end
kprintf-Returns fmt args s fits =
    let ((video, t), run) = loop-Returns fmt args (s.video_card_position, s) fits in
    (
      record t {
        video_card_position = video;
        scroll_for_next_call = if leb t.video_card_end video then true else t.scroll_for_next_call;
      },
      rw run refl,
      λ h. rw (le→leb t.video_card_end video h) refl,
    )
