-- ===== src/Keyboard/Getstring.antt =====
-- `getstring` of sys/keyboard.c, which waits for a line and copies it.
use sbunix_public.Base.{
  leb→le, ℕ, ◌+◌, ◌<◌, ◌≤◌, ◌≡◌, ◌≢◌, refl, sym, ap, ◌∙◌, arith, Bool-cases, inl, inr, eq→==, ne→==,
  ==_iff, leb, List, [], ◌∷◌, ◌++◌, length, Run, ok, out_of_fuel, ◌>>=◌, ◌==◌, if◌then◌else◌,
}
use mathlib.Core.Bool.{false≢true}
use sbunix_public.Memory.{store}
use sbunix_public.Tarfs.{read_string}
use sbunix_public.Tarfs.Names.{append_assoc}
use sbunix_public.Tarfs.Init.{IsName, read_string_lem}
use sbunix_public.Keyboard.{Keyboard, hex_to_char, kb_enter, init_keyboard, keyboard_interrupt}
use sbunix_public.Keyboard.Line.{
  characters, NoEnter, Holds, Holds-store, acknowledged, with_char, interrupt_ignored,
  interrupt_typed, interrupt_full, interrupt_enter, type_keys, type_keys_lem, type_keys-append,
  IsTyped, characters_ignored, characters_typed,
}

-- `while (keyboard_flag != 1)`. The keys of one round are those that come during the delay loop
-- between one test of the flag and the next. Without a line it waits for ever.
unfoldable pub wait : List (List ℕ) → Keyboard → Run (List (List ℕ) × Keyboard)
unfolding type_keys
wait [] s = if s.keyboard_flag == 1 then ok ([], s) else out_of_fuel
wait (keys ∷ rounds) s =
    if s.keyboard_flag == 1 then ok (keys ∷ rounds, s) else (type_keys keys s >>= wait rounds)

-- The string that `strcpy` copies from the buffer of 256 bytes; the keys of `late` come between the
-- last test of the flag and the copy.
pub getstring :
    (rounds : List (List ℕ)) (late : List ℕ) → Keyboard → Run (List ℕ × (List (List ℕ) × Keyboard))
unfolding wait type_keys
getstring rounds late s = do
  (left, t) ← wait rounds (init_keyboard s)
  u ← type_keys late t
  line ← read_string 256 u.buffer 0
  ok (line, (left, u))

-- A key that does not end the line.
one_key :
    (key : ℕ) (s : Keyboard)
    → hex_to_char key ≢ kb_enter
    → (t : Keyboard) × (keyboard_interrupt key s ≡ ok t) × (t.keyboard_flag ≡ s.keyboard_flag)
unfolding acknowledged with_char
one_key key s ne = elim (Bool-cases (hex_to_char key == 0)) [
  | inl e ↦ (acknowledged s, interrupt_ignored key s e, refl)
  | inr n ↦ elim (Bool-cases (leb 256 s.key_count)) [
    | inl full ↦ (acknowledged s, interrupt_full key s n ne (leb→le 256 s.key_count full), refl)
    | inr room ↦ (
      with_char (hex_to_char key) (hex_to_char key) s,
      interrupt_typed key s n ne (ground arith),
      refl,
    )
  ]
]

-- Nor do several.
many_keys :
    (keys : List ℕ) (s : Keyboard)
    → NoEnter keys
    → (t : Keyboard) × (type_keys keys s ≡ ok t) × (t.keyboard_flag ≡ s.keyboard_flag)
unfolding type_keys
many_keys [] s none_left = (s, refl, refl)
many_keys (key ∷ keys) s (ne, others) =
    let (t, first, same) = one_key key s ne in
    let (u, run, same') = many_keys keys t others in (u, rw first run, same' ∙ same)

type_keys_then :
    (xs ys : List ℕ) (s t : Keyboard)
    → type_keys xs s ≡ ok t
    → type_keys (xs ++ ys) s ≡ type_keys ys t
type_keys_then xs ys s t run = type_keys-append xs ys s ∙ rw run refl

NoEnter-left : (xs ys : List ℕ) → NoEnter (xs ++ ys) → NoEnter xs
NoEnter-left [] ys h = tt
NoEnter-left (x ∷ xs) ys (ne, h) = (ne, NoEnter-left xs ys h)

NoEnter-right : (xs ys : List ℕ) → NoEnter (xs ++ ys) → NoEnter ys
NoEnter-right [] ys h = h
NoEnter-right (x ∷ xs) ys (ne, h) = NoEnter-right xs ys h

-- The keys of some rounds, and then some more.
abbrev pub typed : List (List ℕ) → List ℕ → List ℕ
typed [] keys = keys
typed (round ∷ rounds) keys = round ++ typed rounds keys

typed-append :
    (rounds : List (List ℕ)) (xs ys : List ℕ) → typed rounds (xs ++ ys) ≡ typed rounds xs ++ ys
typed-append [] xs ys = refl
typed-append (round ∷ rounds) xs ys =
    ap (λ (t : List ℕ). round ++ t) (typed-append rounds xs ys)
    ∙ sym (append_assoc round (typed rounds xs) ys)

wait_step :
    (keys : List ℕ) (rounds : List (List ℕ)) (s : Keyboard)
    → s.keyboard_flag ≡ 0
    → wait (keys ∷ rounds) s ≡ (type_keys keys s >>= wait rounds)
unfolding wait
wait_step keys rounds s flag = let e = ne→== s.keyboard_flag 1 (omega (arith, flag)) in rw e refl

-- Rounds without an Enter are waited through.
wait_rounds :
    (front : List (List ℕ)) (pre keys : List ℕ) (rounds : List (List ℕ)) (s : Keyboard)
    → s.keyboard_flag ≡ 0
    → NoEnter (typed front pre)
    → wait (front ++ (keys ∷ rounds)) s ≡ (type_keys (typed front keys) s >>= wait rounds)
wait_rounds [] pre keys rounds s flag none_left = wait_step keys rounds s flag
wait_rounds (round ∷ front) pre keys rounds s flag none_left =
    let (t, run, same) = many_keys round s (NoEnter-left round (typed front pre) none_left) in
    let rest =
      wait_rounds front pre keys rounds t (same ∙ flag)
        (NoEnter-right round (typed front pre) none_left) in
    wait_step round (front ++ (keys ∷ rounds)) s flag
    ∙ rw (run, type_keys_then round (typed front keys) s t run) rest

wait_line :
    (rounds : List (List ℕ)) (s : Keyboard) → s.keyboard_flag ≡ 1 → wait rounds s ≡ ok (rounds, s)
unfolding wait
wait_line [] s flag = let e = eq→== s.keyboard_flag 1 flag in rw e refl
wait_line (keys ∷ rounds) s flag = let e = eq→== s.keyboard_flag 1 flag in rw e refl

-- A line in the buffer is a string.
abbrev NonZero : List ℕ → Type 0
NonZero [] = Unit
NonZero (x ∷ xs) = (x ≢ 0) × NonZero xs

characters-NonZero : (keys : List ℕ) → NonZero (characters keys)
characters-NonZero [] = unfold characters in tt
characters-NonZero (key ∷ keys) = elim (Bool-cases (hex_to_char key == 0)) [
  | inl e ↦ coe 1 0 (i. NonZero (characters_ignored key keys e i)) (characters-NonZero keys)
  | inr n ↦
      let ne = λ (z : hex_to_char key ≡ 0). false≢true (sym n ∙ (==_iff (hex_to_char key) 0).1 z) in
      coe 1 0 (i. NonZero (characters_typed key keys n i)) (ne, characters-NonZero keys)
]

Holds-IsName :
    (xs : List ℕ) (b : ℕ → ℕ) (i : ℕ)
    → NonZero xs
    → Holds b i xs
    → b (i + length xs) ≡ 0
    → IsName b i xs
unfolding IsName
Holds-IsName [] b i live holds last = ap b (omega arith) ∙ last
Holds-IsName (x ∷ xs) b i (ne, live) (at, holds) last =
    (at, ne, Holds-IsName xs b (i + 1) live holds (ap b (omega arith) ∙ last))

Holds-kept :
    (b c : ℕ → ℕ) (i : ℕ) (xs : List ℕ)
    → ((a : ℕ) → a < i + length xs → c a ≡ b a)
    → Holds b i xs
    → Holds c i xs
Holds-kept b c i [] kept holds = tt
Holds-kept b c i (x ∷ xs) kept (at, holds) =
    (kept i (omega arith) ∙ at, Holds-kept b c (i + 1) xs (λ a h. kept a (omega arith)) holds)

getstring_step :
    (rounds left : List (List ℕ)) (late line : List ℕ) (s t u : Keyboard)
    → wait rounds (init_keyboard s) ≡ ok (left, t)
    → type_keys late t ≡ ok u
    → read_string 256 u.buffer 0 ≡ ok line
    → getstring rounds late s ≡ ok (line, (left, u))
unfolding getstring
getstring_step rounds left late line s t u waited more read = rw (waited, more, read) refl

-- The line stands in the buffer behind an Enter, whatever keys follow it.
read_line :
    (keys : List ℕ) (t t1 u : Keyboard)
    → IsTyped (init_keyboard t) (characters keys) t1
    → t1.key_count ≡ length (characters keys)
    → length (characters keys) ≤ 255
    → ((a : ℕ) → a < t1.key_count + 1 → u.buffer a ≡ (with_char 0 10 t1).buffer a)
    → read_string 256 u.buffer 0 ≡ ok (characters keys)
unfolding init_keyboard with_char store
read_line keys t t1 u it count short kept =
    let n = length (characters keys) in
    let last : u.buffer (0 + n) ≡ 0 =
      kept (0 + n) (omega (arith, count))
      ∙ rw (eq→== (0 + n) t1.key_count (omega (arith, count))) refl in
    let holds = Holds-store t1.buffer 0 t1.key_count 0 (characters keys) (omega arith) it.holds in
    read_string_lem 256 u.buffer 0 (characters keys)
      (Holds-IsName (characters keys) u.buffer 0 (characters-NonZero keys)
        (Holds-kept (store t1.buffer t1.key_count 0) u.buffer 0 (characters keys)
          (λ a h. kept a (omega (arith, count))) holds)
        last)
      (omega arith)

-- `getstring` waits for the first Enter and answers the characters of the keys before it in their
-- order, however the keys are spread over the rounds of the wait; keys with no character leave no
-- trace. The keys that come behind the Enter before the next test of the flag, and before the line
-- is copied, are handled too, but do not change the answer. No other Enter is among these, and all
-- the characters with the end mark fit into the buffer of 256 bytes.
pub getstring_lem :
    (front rest : List (List ℕ)) (pre post late : List ℕ) (enter : ℕ) (s : Keyboard)
    → NoEnter (typed front pre)
    → NoEnter post
    → NoEnter late
    → hex_to_char enter ≡ kb_enter
    → length (characters (typed front pre))
        + (1 + (length (characters post) + length (characters late)))
      ≤ 256
    → (u : Keyboard) × (getstring (front ++ ((pre ++ (enter ∷ post)) ∷ rest)) late s
        ≡ ok (characters (typed front pre), (rest, u)))
unfolding init_keyboard with_char store type_keys
getstring_lem front rest pre post late enter s none_left none_left' none_left'' is_enter room =
    let keys = typed front pre in
    let (t1, run1, it1) = type_keys_lem keys (init_keyboard s) none_left (omega arith) in
    let count : t1.key_count ≡ length (characters keys) = omega (arith, it1.count) in
    let t2 : Keyboard = record (with_char 0 10 t1) { keyboard_flag = 1 } in
    let second = interrupt_enter enter t1 is_enter (omega arith) in
    let (t3, run3, it3) = type_keys_lem post t2 none_left' (omega arith) in
    let (u, run4, it4) = type_keys_lem late t3 none_left'' (omega (arith, it3.count)) in
    let whole : type_keys (typed front (pre ++ (enter ∷ post))) (init_keyboard s) ≡ ok t3 =
      ap (λ (l : List ℕ). type_keys l (init_keyboard s)) (typed-append front pre (enter ∷ post))
      ∙ type_keys_then keys (enter ∷ post) (init_keyboard s) t1 run1
      ∙ rw second run3 in
    (
      u,
      getstring_step (front ++ ((pre ++ (enter ∷ post)) ∷ rest)) rest late (characters keys) s t3 u
          (wait_rounds front pre (pre ++ (enter ∷ post)) rest (init_keyboard s) refl none_left
            ∙ rw whole (wait_line rest t3 it3.flag))
          run4
          (read_line keys s t1 u it1 count (omega arith)
            (λ a h. it4.kept a (omega (arith, it3.count)) ∙ it3.kept a (omega arith))),
    )
