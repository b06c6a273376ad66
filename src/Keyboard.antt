-- ===== src/Keyboard.antt =====
-- The keyboard of sys/keyboard.c: the scan codes of include/sys/keyboard.h and the line buffer.
pub mod Line
pub mod Getstring
mod Tests
use sbunix_public.Base.{
  ℕ, ◌+◌, ◌-◌, ◌%◌, Run, ok, ◌>>=◌, ◌>>◌, fault_if, leb, ltb, ◌==◌, ◌&&◌, if◌then◌else◌, List, [],
  ◌∷◌, get_or,
}
use sbunix_public.Memory.{store}

-- The keys of `enum scan_codes` at which a row of characters starts or ends, and three more.
abbrev pub kb_1 : ℕ
kb_1 = 0x02

abbrev pub kb_0 : ℕ
kb_0 = 0x0b

abbrev pub kb_q : ℕ
kb_q = 0x10

abbrev pub kb_braces_close : ℕ
kb_braces_close = 0x1b

abbrev pub kb_enter : ℕ
kb_enter = 0x1c

abbrev pub kb_a : ℕ
kb_a = 0x1e

abbrev pub kb_inverted_comma : ℕ
kb_inverted_comma = 0x28

abbrev pub kb_z : ℕ
kb_z = 0x2c

abbrev pub kb_f_slash_question : ℕ
kb_f_slash_question = 0x35

abbrev pub kb_space : ℕ
kb_space = 0x39

abbrev pub kb_keypad_7 : ℕ
kb_keypad_7 = 0x47

abbrev pub kb_keypad_dot : ℕ
kb_keypad_dot = 0x53

-- The rows, in ASCII: "1234567890", "qwertyuiop[]", "asdfghjkl;'", "zxcvbnm,./", "789-456+1230."
abbrev pub digit_row : List ℕ
digit_row = 49 ∷ 50 ∷ 51 ∷ 52 ∷ 53 ∷ 54 ∷ 55 ∷ 56 ∷ 57 ∷ 48 ∷ []

abbrev pub top_row : List ℕ
top_row = 113 ∷ 119 ∷ 101 ∷ 114 ∷ 116 ∷ 121 ∷ 117 ∷ 105 ∷ 111 ∷ 112 ∷ 91 ∷ 93 ∷ []

abbrev pub home_row : List ℕ
home_row = 97 ∷ 115 ∷ 100 ∷ 102 ∷ 103 ∷ 104 ∷ 106 ∷ 107 ∷ 108 ∷ 59 ∷ 39 ∷ []

abbrev pub bottom_row : List ℕ
bottom_row = 122 ∷ 120 ∷ 99 ∷ 118 ∷ 98 ∷ 110 ∷ 109 ∷ 44 ∷ 46 ∷ 47 ∷ []

abbrev pub keypad : List ℕ
keypad = 55 ∷ 56 ∷ 57 ∷ 45 ∷ 52 ∷ 53 ∷ 54 ∷ 43 ∷ 49 ∷ 50 ∷ 51 ∷ 48 ∷ 46 ∷ []

pub hex_to_char : ℕ → ℕ
hex_to_char key =
    if leb kb_1 key && leb key kb_0
    then get_or digit_row (key - kb_1) 0
    else (if leb kb_q key && leb key kb_braces_close
        then get_or top_row (key - kb_q) 0
        else (if leb kb_a key && leb key kb_inverted_comma
            then get_or home_row (key - kb_a) 0
            else (if leb kb_z key && leb key kb_f_slash_question
                then get_or bottom_row (key - kb_z) 0
                else (if leb kb_keypad_7 key && leb key kb_keypad_dot
                    then get_or keypad (key - kb_keypad_7) 0
                    else (if key == kb_space
                        then 32
                        else (if key == kb_enter then kb_enter else 0))))))

-- The globals of keyboard.h; `buffer` has 256 bytes. `printed` and `outs` are what went to the screen
-- and to the ports, the last first.
pub record Keyboard : Type 0 where
  pub keyboard_flag : ℕ
  pub key_count : ℕ
  pub buffer : ℕ → ℕ
  pub printed : List ℕ
  pub outs : List (ℕ × ℕ)

-- `strcpy(buffer, "\0")` writes the end of the empty string.
pub init_keyboard : Keyboard → Keyboard
unfolding store
init_keyboard s = record s { keyboard_flag = 0; buffer = store s.buffer 0 0; key_count = 0 }

-- `buffer[key_count++] = character`, which must stand in the array.
pub put_char : ℕ → Keyboard → Run Keyboard
unfolding store
put_char character s = do
  fault_if (leb 256 s.key_count)
  ok (record s { buffer = store s.buffer s.key_count character; key_count = s.key_count + 1 })

-- `key` is the byte read from port 0x60.
pub keyboard_interrupt : ℕ → Keyboard → Run Keyboard
keyboard_interrupt key s =
    let t = record s { outs = (0x20, 0x20) ∷ s.outs } in
    let character = hex_to_char key in
    if character == 0
    then ok t
    else (if character == kb_enter
        then (put_char 0 t >>= λ u. ok (record u { keyboard_flag = 1; printed = 10 ∷ u.printed }))
        else (if ltb t.key_count 256
            then (put_char character t >>= λ u. ok (record u { printed = character ∷ u.printed }))
            else ok t))
