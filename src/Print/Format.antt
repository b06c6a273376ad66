-- ===== src/Print/Format.antt =====
-- `kprintf` of sys/kprintf.c. A format and a string are the bytes before their NUL, outside the memory
-- of the card; an argument has one of the types that the formats read.
pub mod Text
pub mod Line
pub mod Returns
mod Tests
use sbunix_public.Base.{
  ℕ, ◌+◌, ◌-◌, ◌*◌, ◌%◌, Bool, true, false, List, [], ◌∷◌, Run, ok, fault, ◌>>=◌, leb, ◌==◌,
  if◌then◌else◌,
}
use sbunix_public.Memory.{Memory, store, sub64}
use sbunix_public.Print.{ℤ, pos, negsuc, print_pointer, print_hex, print_int}
use sbunix_public.Print.Screen.{Console, scroll}

-- What `va_arg` reads.
pub data Argument : Type 0 where
  string : List ℕ → Argument
  int : ℤ → Argument
  pointer : ℕ → Argument

-- `*video++ = ch; *video++ = colour;`
unfoldable pub put_char : Memory → (video ch : ℕ) → Memory
unfolding store
put_char m video ch = store (store m video (ch % 256)) (video + 1) 0

unfoldable pub put_string : Memory → (video : ℕ) → List ℕ → ℕ × Memory
put_string m video [] = (video, m)
put_string m video (ch ∷ str) = put_string (put_char m video ch) (video + 2) str

-- `char ch = va_arg(parameters, int);`
pub low_byte : ℤ → ℕ
low_byte (pos n) = n % 256
low_byte (negsuc n) = 255 - n % 256

-- What a conversion leaves: the place of the next character, the arguments not read, and memory. An
-- argument that is missing or of another type is undefined in C, and a fault here. The printers call
-- themselves for each digit, 17 times at most.
abbrev pub Rest : Type 0
Rest = ℕ × List Argument × Memory

unfoldable pub convert_string : (video : ℕ) → List Argument → Memory → Run Rest
convert_string video (string str ∷ args) m = let r = put_string m video str in ok (r.0, args, r.1)
convert_string video args m = fault

unfoldable pub convert_char : (video : ℕ) → List Argument → Memory → Run Rest
convert_char video (int num ∷ args) m = ok (video + 2, args, put_char m video (low_byte num))
convert_char video args m = fault

-- For %d and %x, with the printer of the number.
unfoldable pub convert_int :
    (ℤ → Memory → Run (ℕ × Memory)) → (video : ℕ) → List Argument → Memory → Run Rest
convert_int print video (int num ∷ args) m = print num m >>= λ r. ok (video + r.0, args, r.1)
convert_int print video args m = fault

unfoldable pub convert_pointer : (video : ℕ) → List Argument → Memory → Run Rest
convert_pointer video (pointer num ∷ args) m =
    print_pointer 17 (video + 4) 0 num (put_char (put_char m video 48) (video + 2) 120) >>= λ r.
    ok (video + 4 + r.0, args, r.1)
convert_pointer video args m = fault

-- The `switch` on the character behind a '%'; any other character prints nothing.
unfoldable pub convert : (specifier video : ℕ) → List Argument → Memory → Run Rest
convert specifier video args m =
    if specifier == 115
    then convert_string video args m
    else if specifier == 99
    then convert_char video args m
    else if specifier == 100
    then convert_int (print_int 17 video 0) video args m
    else if specifier == 120
    then convert_int (print_hex 17 video 0) video args m
    else if specifier == 112
    then convert_pointer video args m
    else ok (video, args, m)

-- The distance of two places, for a test whether it is a multiple of 160.
unfoldable pub distance : (a b : ℕ) → ℕ
distance a b = if leb b a then a - b else b - a

-- `video + 160 - (video - base) % 160`, where the remainder takes the sign of the difference.
unfoldable pub next_line : (base video : ℕ) → ℕ
next_line base video =
    if leb base video
    then video + 160 - (video - base) % 160
    else video + 160 + (base - video) % 160

unfoldable pub newline : Console → (video : ℕ) → ℕ
newline s video =
    if distance s.video_card_position s.video_card_start % 160 == 0
    then next_line s.video_card_position video
    else next_line s.video_card_start video

-- The start of a round: a screen that is full scrolls.
unfoldable pub scroll_first : ℕ × Console → ℕ × Console
scroll_first (video, s) =
    if s.scroll_for_next_call
    then (
      sub64 video 160,
      record s {
        memory = scroll s;
        video_card_position = sub64 s.video_card_position 160;
        scroll_for_next_call = false;
      },
    )
    else (video, s)

-- The end of a round.
unfoldable pub check_end : ℕ → Console → ℕ × Console
check_end video s = (
  video,
  record s {
    scroll_for_next_call = if leb s.video_card_end video then true else s.scroll_for_next_call;
  },
)

-- The loop; the flag says that a '%' has been read in this round. A format that ends there is read
-- behind its NUL.
unfoldable pub kprintf_loop : Bool → List ℕ → List Argument → ℕ × Console → Run (ℕ × Console)
kprintf_loop true [] args (video, s) = fault
kprintf_loop false [] args (video, s) = ok (video, s)
kprintf_loop true (specifier ∷ fmt) args (video, s) = convert specifier video args s.memory >>= λ r.
    kprintf_loop false fmt r.1 (check_end r.0 (record s { memory = r.2 }))
kprintf_loop false (ch ∷ fmt) args (video, s) =
    let r = scroll_first (video, s) in
    kprintf_loop (ch == 37) fmt args (
      if ch == 37
      then r
      else if ch == 10
      then check_end (newline r.1 r.0) r.1
      else check_end (r.0 + 2) (record r.1 { memory = put_char r.1.memory r.0 ch }))

pub kprintf : List ℕ → List Argument → Console → Run Console
unfolding kprintf_loop check_end
kprintf fmt args s = kprintf_loop false fmt args (s.video_card_position, s) >>= λ r.
    ok (check_end r.0 (record r.1 { video_card_position = r.0 })).1
