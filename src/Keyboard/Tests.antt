-- ===== src/Keyboard/Tests.antt =====
-- The line "ls", with a key that has no character in it, and a line of 256 letters.
use sbunix_public.Base.{
  ◌≤◌, ◌≡◌, ◌++◌, arith, refl, ok, fault, List, ℕ, [], ◌∷◌, zero, suc, replicate, length,
}
use sbunix_public.Keyboard.{Keyboard, hex_to_char, init_keyboard}
use sbunix_public.Keyboard.Getstring.{getstring, getstring_lem}
use sbunix_public.Keyboard.Line.{
  Holds, NoEnter, characters, type_keys, type_line, type_line_overflow,
}

abbrev start : Keyboard
start = record { keyboard_flag = 0; key_count = 7; buffer = λ _. 1; printed = []; outs = [] }

-- The keys L and S, and the release of L between them.
abbrev ls : List ℕ
ls = 0x26 ∷ 0xa6 ∷ 0x1f ∷ []

type_line_ls :
    (t : Keyboard) × (type_keys (ls ++ (0x1c ∷ [])) (init_keyboard start) ≡ ok t)
    × Holds t.buffer 0 (characters ls)
    × (t.buffer (length (characters ls)) ≡ 0)
    × (t.keyboard_flag ≡ 1)
unfolding hex_to_char characters
type_line_ls =
    type_line ls 0x1c start (ground arith, (ground arith, (ground arith, tt))) refl (omega arith)

characters_run : characters ls ≡ 108 ∷ 115 ∷ []
unfolding hex_to_char characters
characters_run = refl

-- L comes in one round, and the others with the Enter and A in the next; then S comes.
getstring_lem_example :
    (u : Keyboard) × (getstring
        ((0x26 ∷ []) ∷ (((0xa6 ∷ 0x1f ∷ []) ++ (0x1c ∷ 0x1e ∷ [])) ∷ (0x1e ∷ []) ∷ []))
        (0x1f ∷ [])
        start
      ≡ ok (characters ls, (((0x1e ∷ []) ∷ []), u)))
unfolding hex_to_char characters
getstring_lem_example =
    getstring_lem ((0x26 ∷ []) ∷ []) ((0x1e ∷ []) ∷ []) (0xa6 ∷ 0x1f ∷ []) (0x1e ∷ []) (0x1f ∷ [])
      0x1c start (ground arith, (ground arith, (ground arith, tt))) (ground arith, tt)
      (ground arith, tt) refl (omega arith)

abbrev long : List ℕ
long = replicate 260 0x1e

long-NoEnter : (n : ℕ) → NoEnter (replicate n 0x1e)
unfolding hex_to_char
long-NoEnter zero = tt
long-NoEnter (suc n) = (ground arith, long-NoEnter n)

type_line_overflow_example :
    (length (characters long) ≤ 255
      → (t : Keyboard) × (type_keys (long ++ (0x1c ∷ [])) (init_keyboard start) ≡ ok t)
        × Holds t.buffer 0 (characters long)
        × (t.buffer (length (characters long)) ≡ 0)
        × (t.keyboard_flag ≡ 1))
    × (256 ≤ length (characters long)
        → type_keys (long ++ (0x1c ∷ [])) (init_keyboard start) ≡ fault)
unfolding hex_to_char
type_line_overflow_example = type_line_overflow long 0x1c start (long-NoEnter 260) refl
