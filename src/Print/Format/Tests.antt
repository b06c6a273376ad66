-- ===== src/Print/Format/Tests.antt =====
-- `kprintf` on a screen that is full: "Hi" and a newline, and formats with numbers.
use sbunix_public.Base.{
  ℕ, ◌+◌, ◌*◌, ◌<◌, ◌≤◌, ◌≡◌, ◌⊎◌, refl, inl, inr, arith, [], ◌∷◌, true, false, ok, Run, leb, ◌>>=◌,
}
use sbunix_public.Memory.{Memory}
use sbunix_public.Print.{pos, negsuc, print_int, print_nat, print_pointer, put_digit}
use sbunix_public.Print.Screen.{Console, scroll}
use sbunix_public.Print.Screen.Laws.{scroll_lem}
use sbunix_public.Print.Format.{
  string, int, pointer, kprintf, scroll_first, convert, convert_int, convert_pointer, newline,
  distance, next_line,
}
use sbunix_public.Print.Format.Text.{IsPlain, no_char, plain_char, IsText}
use sbunix_public.Print.Format.Line.{IsNextLine, kprintf_line}
use sbunix_public.Print.Format.Returns.{
  at_end, percent_s, percent_number, at_least_zero, below_zero, kprintf-Returns,
}

abbrev stars : Memory
stars a = 42

-- The screen after its last line.
abbrev full : Console
full = record {
  video_card_start = 0xB8000;
  video_card_end = 0xB8FA0;
  video_card_position = 0xB8FA0;
  scroll_for_next_call = true;
  memory = stars;
}

abbrev empty : Console
empty = record {
  video_card_start = 0xB8000;
  video_card_end = 0xB8FA0;
  video_card_position = 0xB8000;
  scroll_for_next_call = false;
  memory = stars;
}

scroll_example :
    ((a : ℕ) → 0xB8000 ≤ a → a < 0xB8000 + 3840 → scroll full a ≡ stars (a + 160))
    × ((k : ℕ) → k < 81 → scroll full (0xB8000 + 3840 + 2 * k) ≡ 32)
    × ((k : ℕ)
        → k < 80
        → scroll full (0xB8000 + 3840 + 2 * k + 1) ≡ stars (0xB8000 + 3840 + 2 * k + 1))
    × ((a : ℕ) → (a < 0xB8000) ⊎ (0xB8FA0 < a) → scroll full a ≡ stars a)
scroll_example = scroll_lem full refl

hi-IsPlain : IsPlain (72 ∷ 105 ∷ [])
hi-IsPlain =
    plain_char 72 (105 ∷ []) (omega arith) (omega arith)
      (plain_char 105 [] (omega arith) (omega arith) no_char)

kprintf_line_example :
    (t : Console) × (kprintf (72 ∷ 105 ∷ 10 ∷ []) [] full ≡ ok t)
    × IsText (72 ∷ 105 ∷ []) 0xB8F00 (scroll full) t.memory
    × IsNextLine 0xB8000 0xB8F04 t.video_card_position
    × (t.scroll_for_next_call ≡ leb 0xB8FA0 t.video_card_position)
unfolding scroll_first
kprintf_line_example = kprintf_line (72 ∷ 105 ∷ []) [] full hi-IsPlain (omega arith) (omega arith)

-- "%s%d%x" with "ok", -1 and 255.
kprintf-Returns_example :
    (t : Console) × (kprintf
        (37 ∷ 115 ∷ 37 ∷ 100 ∷ 37 ∷ 120 ∷ [])
        (string (111 ∷ 107 ∷ []) ∷ int (negsuc 0) ∷ int (pos 255) ∷ [])
        full
      ≡ ok t)
    × (t.video_card_end ≤ t.video_card_position → t.scroll_for_next_call ≡ true)
kprintf-Returns_example =
    kprintf-Returns (37 ∷ 115 ∷ 37 ∷ 100 ∷ 37 ∷ 120 ∷ [])
      (string (111 ∷ 107 ∷ []) ∷ int (negsuc 0) ∷ int (pos 255) ∷ []) full
      (percent_s _ _ _ (
        percent_number 100 _ _ _ (inr (inl refl)) (below_zero 0 (omega arith)) (
          percent_number 120 _ _ _ (inr (inr refl)) (at_least_zero 255 (omega arith)) (at_end []))))

-- Where a call stops.
abbrev place_of : Run Console → Run ℕ
place_of r = r >>= λ t. ok t.video_card_position

zero_moves_nothing : place_of (kprintf (37 ∷ 100 ∷ []) (int (pos 0) ∷ []) empty) ≡ ok 0xB8000
unfolding kprintf convert convert_int print_int print_nat scroll_first
zero_moves_nothing = refl

pointer_moves : place_of (kprintf (37 ∷ 112 ∷ []) (pointer 0xcafe ∷ []) empty) ≡ ok (0xB8000 + 12)
unfolding kprintf convert convert_pointer print_pointer put_digit scroll_first
pointer_moves = refl

newline_moves : place_of (kprintf (72 ∷ 105 ∷ 10 ∷ []) [] empty) ≡ ok (0xB8000 + 160)
unfolding kprintf newline distance scroll_first next_line
newline_moves = refl
