-- ===== src/Keyboard/Line.antt =====
-- Lines typed at the keyboard of sys/keyboard.c: what stands in the buffer after the interrupts.
use sbunix_public.Base.{
  leb→le, leb, ◌++◌, le→ltb_false, ℕ, suc, ◌+◌, ◌<◌, ◌≤◌, ◌≡◌, ◌≢◌, inl, inr, arith, refl, ap, sym,
  ◌∙◌, true, false, Run, ok, fault, out_of_fuel, ◌>>=◌, ◌==◌, if◌then◌else◌, List, [], ◌∷◌, length,
  Bool-cases, eq→==, ne→==, lt→ltb, lt→leb_false, le→leb,
}
use sbunix_public.Memory.{store}
use sbunix_public.Keyboard.{
  Keyboard, kb_enter, hex_to_char, init_keyboard, put_char, keyboard_interrupt,
}

-- The interrupts of a sequence of keys.
unfoldable pub type_keys : List ℕ → Keyboard → Run Keyboard
type_keys [] s = ok s
type_keys (key ∷ keys) s = keyboard_interrupt key s >>= type_keys keys

-- The characters of the keys that have one.
unfoldable pub characters : List ℕ → List ℕ
characters [] = []
characters (key ∷ keys) =
    let rest = characters keys in if hex_to_char key == 0 then rest else hex_to_char key ∷ rest

-- No key of the line is the one that ends it.
abbrev pub NoEnter : List ℕ → Type 0
NoEnter [] = Unit
NoEnter (key ∷ keys) = (hex_to_char key ≢ kb_enter) × NoEnter keys

-- The buffer holds the characters from `i` on.
abbrev pub Holds : (ℕ → ℕ) → ℕ → List ℕ → Type 0
Holds buffer i [] = Unit
Holds buffer i (x ∷ xs) = (buffer i ≡ x) × Holds buffer (i + 1) xs

pub Holds-store :
    (b : ℕ → ℕ) (i j x : ℕ) (xs : List ℕ)
    → i + length xs ≤ j
    → Holds b i xs
    → Holds (store b j x) i xs
unfolding store
Holds-store b i j x [] h at = tt
Holds-store b i j x (y ∷ ys) h (e, at) =
    (rw (ne→== i j (omega arith)) e, Holds-store b (i + 1) j x ys (omega arith) at)

-- What `keys` do to a line that is not full: their characters follow.
pub record IsTyped (s : Keyboard) (xs : List ℕ) (t : Keyboard) : Type 0 where
  pub count : t.key_count ≡ s.key_count + length xs
  pub holds : Holds t.buffer s.key_count xs
  pub kept : (a : ℕ) → a < s.key_count → t.buffer a ≡ s.buffer a
  pub flag : t.keyboard_flag ≡ s.keyboard_flag

-- The three kinds of interrupt, by the character of the key.
unfoldable pub acknowledged : Keyboard → Keyboard
acknowledged s = record s { outs = (0x20, 0x20) ∷ s.outs }

unfoldable pub with_char : ℕ → ℕ → Keyboard → Keyboard
unfolding store
with_char character shown s = record s {
  buffer = store s.buffer s.key_count character;
  key_count = s.key_count + 1;
  printed = shown ∷ s.printed;
  outs = (0x20, 0x20) ∷ s.outs;
}

module _ (key : ℕ) (s : Keyboard) where
  pub interrupt_ignored :
      (hex_to_char key == 0) ≡ true → keyboard_interrupt key s ≡ ok (acknowledged s)
  unfolding keyboard_interrupt acknowledged
  interrupt_ignored e = rw e

  pub interrupt_typed :
      (hex_to_char key == 0) ≡ false
      → hex_to_char key ≢ kb_enter
      → s.key_count < 256
      → keyboard_interrupt key s ≡ ok (with_char (hex_to_char key) (hex_to_char key) s)
  unfolding keyboard_interrupt put_char with_char
  interrupt_typed e ne room = rw (
    e,
    ne→== (hex_to_char key) kb_enter ne,
    lt→ltb s.key_count 256 room,
    lt→leb_false 256 s.key_count room,
  )

  pub interrupt_enter :
      hex_to_char key ≡ kb_enter
      → s.key_count < 256
      → keyboard_interrupt key s ≡ ok (record (with_char 0 10 s) { keyboard_flag = 1 })
  unfolding keyboard_interrupt put_char with_char
  interrupt_enter e room = rw (e, lt→leb_false 256 s.key_count room)

  interrupt_enter_full :
      hex_to_char key ≡ kb_enter → 256 ≤ s.key_count → keyboard_interrupt key s ≡ fault
  unfolding keyboard_interrupt put_char
  interrupt_enter_full e full = rw (e, le→leb 256 s.key_count full)

  pub interrupt_full :
      (hex_to_char key == 0) ≡ false
      → hex_to_char key ≢ kb_enter
      → 256 ≤ s.key_count
      → keyboard_interrupt key s ≡ ok (acknowledged s)
  unfolding keyboard_interrupt put_char acknowledged
  interrupt_full e ne full =
      rw (e, ne→== (hex_to_char key) kb_enter ne, le→ltb_false s.key_count 256 full)

pub characters_ignored :
    (key : ℕ) (keys : List ℕ)
    → (hex_to_char key == 0) ≡ true
    → characters (key ∷ keys) ≡ characters keys
unfolding characters
characters_ignored key keys e = rw e refl

pub characters_typed :
    (key : ℕ) (keys : List ℕ)
    → (hex_to_char key == 0) ≡ false
    → characters (key ∷ keys) ≡ hex_to_char key ∷ characters keys
unfolding characters
characters_typed key keys e = rw e refl

IsTyped-char :
    (c : ℕ) (xs : List ℕ) (s t : Keyboard) → IsTyped (with_char c c s) xs t → IsTyped s (c ∷ xs) t
unfolding with_char store
IsTyped-char c xs s t it = record {
  count = omega (arith, it.count);
  holds =
      (it.kept s.key_count (omega arith) ∙ rw (eq→== s.key_count s.key_count refl) refl, it.holds);
  kept = λ a h. it.kept a (omega arith) ∙ rw (ne→== a s.key_count (omega arith)) refl;
  flag = it.flag;
}

pub type_keys_lem :
    (keys : List ℕ) (s : Keyboard)
    → NoEnter keys
    → s.key_count + length (characters keys) ≤ 256
    → (t : Keyboard) × (type_keys keys s ≡ ok t) × IsTyped s (characters keys) t
unfolding type_keys acknowledged with_char store
type_keys_lem [] s none_left room = (
  s,
  refl,
  record {
    count = unfold characters in omega arith;
    holds = unfold characters in tt;
    kept = λ a h. refl;
    flag = refl;
  },
)
type_keys_lem (key ∷ keys) s (ne, others) room = elim (Bool-cases (hex_to_char key == 0)) [
  | inl e ↦
      let same = characters_ignored key keys e in
      let (t, run, it) =
        type_keys_lem keys (acknowledged s) others (omega (arith, ap length same, room)) in
      (
        t,
        rw (interrupt_ignored key s e) run,
        coe 1 0 (i. IsTyped s (same i) t)
            (record { count = it.count; holds = it.holds; kept = it.kept; flag = it.flag }),
      )
  | inr n ↦
      let more = characters_typed key keys n in
      let c = hex_to_char key in
      let space : s.key_count + suc (length (characters keys)) ≤ 256 =
        omega (arith, ap length more, room) in
      let (t, run, it) = type_keys_lem keys (with_char c c s) others (omega arith) in
      (
        t,
        rw (interrupt_typed key s n ne (omega arith)) run,
        coe 1 0 (i. IsTyped s (more i) t) (IsTyped-char c (characters keys) s t it),
      )
]

pub type_keys-append :
    (xs ys : List ℕ) (s : Keyboard) → type_keys (xs ++ ys) s ≡ (type_keys xs s >>= type_keys ys)
unfolding type_keys
type_keys-append [] ys s = refl
type_keys-append (x ∷ xs) ys s =
    elim (keyboard_interrupt x s)
      as (λ r. (r >>= type_keys (xs ++ ys)) ≡ ((r >>= type_keys xs) >>= type_keys ys)) [
        | ok t ↦ type_keys-append xs ys t
        | fault ↦ refl
        | out_of_fuel ↦ refl
      ]

type_keys_one : (key : ℕ) (s : Keyboard) → type_keys (key ∷ []) s ≡ keyboard_interrupt key s
unfolding type_keys
type_keys_one key s = elim (keyboard_interrupt key s) as (λ r. (r >>= ok) ≡ r) [
  | ok t ↦ refl
  | fault ↦ refl
  | out_of_fuel ↦ refl
]

-- A line read after `init_keyboard`: of at most 255 characters, and ended by the first Enter, it
-- stands in the buffer in the order of the keys, with its end mark behind, and the flag that
-- `getstring` waits for is set. Keys with no character leave no trace.
pub type_line :
    (keys : List ℕ) (enter : ℕ) (s : Keyboard)
    → NoEnter keys
    → hex_to_char enter ≡ kb_enter
    → length (characters keys) ≤ 255
    → (t : Keyboard) × (type_keys (keys ++ (enter ∷ [])) (init_keyboard s) ≡ ok t)
      × Holds t.buffer 0 (characters keys)
      × (t.buffer (length (characters keys)) ≡ 0)
      × (t.keyboard_flag ≡ 1)
unfolding init_keyboard with_char store
type_line keys enter s none_left end short =
    let (t, run, it) = type_keys_lem keys (init_keyboard s) none_left (omega arith) in
    let n = length (characters keys) in
    let count : t.key_count ≡ n = omega (arith, it.count) in
    (
      record (with_char 0 10 t) { keyboard_flag = 1 },
      type_keys-append keys (enter ∷ []) (init_keyboard s)
          ∙ rw run (type_keys_one enter t ∙ interrupt_enter enter t end (omega arith)),
      Holds-store t.buffer 0 t.key_count 0 (characters keys) (omega arith) it.holds,
      rw (eq→== n t.key_count (sym count)) refl,
      refl,
    )

-- Characters that the line has no room for are dropped.
type_keys_full :
    (keys : List ℕ) (s : Keyboard)
    → NoEnter keys
    → 256 ≤ s.key_count + length (characters keys)
    → (t : Keyboard) × (type_keys keys s ≡ ok t) × (256 ≤ t.key_count)
unfolding type_keys acknowledged with_char
type_keys_full [] s none_left full = (s, refl, unfold characters in omega arith)
type_keys_full (key ∷ keys) s (ne, others) full = elim (Bool-cases (hex_to_char key == 0)) [
  | inl e ↦
      let (t, run, enough) =
        type_keys_full keys (acknowledged s) others
          (omega (arith, ap length (characters_ignored key keys e), full)) in
      (t, rw (interrupt_ignored key s e) run, enough)
  | inr n ↦
      let more : length (characters (key ∷ keys)) ≡ suc (length (characters keys)) =
        ap length (characters_typed key keys n) in
      elim (Bool-cases (leb 256 s.key_count)) [
        | inl no_room ↦
            let (t, run, enough) =
              type_keys_full keys (acknowledged s) others
                (omega (arith, leb→le 256 s.key_count no_room)) in
            (t, rw (interrupt_full key s n ne (leb→le 256 s.key_count no_room)) run, enough)
        | inr room ↦
            let c = hex_to_char key in
            let (t, run, enough) =
              type_keys_full keys (with_char c c s) others (omega (arith, more, full)) in
            (t, rw (interrupt_typed key s n ne (ground arith)) run, enough)
      ]
]

-- The first Enter after `init_keyboard` ends the line if at most 255 characters came before it: they
-- stand in the buffer in their order, with the end mark behind. With 256 or more, of which those that
-- found no room were dropped, Enter writes its end mark behind the buffer.
pub type_line_overflow :
    (keys : List ℕ) (enter : ℕ) (s : Keyboard)
    → NoEnter keys
    → hex_to_char enter ≡ kb_enter
    → (length (characters keys) ≤ 255
        → (t : Keyboard) × (type_keys (keys ++ (enter ∷ [])) (init_keyboard s) ≡ ok t)
          × Holds t.buffer 0 (characters keys)
          × (t.buffer (length (characters keys)) ≡ 0)
          × (t.keyboard_flag ≡ 1))
      × (256 ≤ length (characters keys)
          → type_keys (keys ++ (enter ∷ [])) (init_keyboard s) ≡ fault)
unfolding init_keyboard
type_line_overflow keys enter s none_left end = (
  λ short. type_line keys enter s none_left end short,
  λ long.
      let (t, run, full) = type_keys_full keys (init_keyboard s) none_left (omega (arith, long)) in
      type_keys-append keys (enter ∷ []) (init_keyboard s)
      ∙ rw run (type_keys_one enter t ∙ interrupt_enter_full enter t end full),
)
