-- ===== src/Print/Format/Line.antt =====
-- Where `kprintf` of sys/kprintf.c goes on after a newline, and a line of text as a whole.
use sbunix_public.Base.{
  ==_iff, le→leb, ℕ, ◌+◌, ◌-◌, ◌*◌, ◌%◌, ◌<◌, ◌≤◌, ◌≡◌, inl, inr, refl, ◌∙◌, arith, leb, ◌==◌, Bool,
  true, false, if◌then◌else◌, Bool-cases, List, [], ◌∷◌, ◌++◌, length, ok,
}
use sbunix_public.Print.Screen.{Console}
use sbunix_public.Print.Format.{
  Argument, distance, next_line, newline, scroll_first, check_end, kprintf_loop, kprintf,
}
use sbunix_public.Print.Format.Text.{IsPlain, IsText, plain_rounds}

-- The first place of a line behind `video`, on a screen from `start` on.
pub record IsNextLine (start video n : ℕ) : Type 0 where
  pub starts : (n - start) % 160 ≡ 0
  pub behind : video < n
  pub next : n ≤ video + 160

next_line_lem :
    (start base video : ℕ)
    → start ≤ base
    → base ≤ video
    → (base - start) % 160 ≡ 0
    → IsNextLine start video (next_line base video)
unfolding next_line
next_line_lem start base video lo hi aligned =
    rw (le→leb base video hi)
      (record { starts = omega arith; behind = omega arith; next = omega arith })

-- Both ways to compute the place of the next line come to the same.
pub newline_lem :
    (s : Console) (video : ℕ)
    → s.video_card_start ≤ s.video_card_position
    → s.video_card_position ≤ video
    → IsNextLine s.video_card_start video (newline s video)
unfolding newline distance
newline_lem s video lo hi =
    let d = s.video_card_position - s.video_card_start in
    rw (le→leb s.video_card_start s.video_card_position lo) (elim (Bool-cases (d % 160 == 0)) [
      | inl e ↦ rw e (
          next_line_lem s.video_card_start s.video_card_position video lo hi
            ((==_iff (d % 160) 0).0 e))
      | inr e ↦ rw e (
          next_line_lem s.video_card_start s.video_card_start video (omega arith) (omega arith)
            (omega arith))
    ])

-- The loop scrolls first.
loop-scroll_first :
    (ch : ℕ) (fmt : List ℕ) (args : List Argument) (video : ℕ) (s : Console)
    → kprintf_loop false (ch ∷ fmt) args (video, s)
      ≡ kprintf_loop false (ch ∷ fmt) args (scroll_first (video, s))
unfolding kprintf_loop scroll_first
loop-scroll_first ch fmt args video s = elim (Bool-cases s.scroll_for_next_call) [
  | inl e ↦ rw e refl
  | inr e ↦ rw e refl
]

still_after : (video : ℕ) (s : Console) → (scroll_first (video, s)).1.scroll_for_next_call ≡ false
unfolding scroll_first
still_after video s = elim (Bool-cases s.scroll_for_next_call) [
  | inl e ↦ rw e refl
  | inr e ↦ rw e refl
]

place_after :
    (s : Console)
    → (scroll_first (s.video_card_position, s)).1.video_card_position
      ≡ (scroll_first (s.video_card_position, s)).0
unfolding scroll_first
place_after s = elim (Bool-cases s.scroll_for_next_call) [ inl e ↦ rw e refl | inr e ↦ rw e refl ]

-- The newline at the end of a format.
last_round :
    (args : List Argument) (video : ℕ) (s : Console)
    → s.scroll_for_next_call ≡ false
    → kprintf_loop false (10 ∷ []) args (video, s)
      ≡ ok (
        newline s video,
        record s { scroll_for_next_call = leb s.video_card_end (newline s video) },
      )
unfolding kprintf_loop scroll_first check_end newline
last_round args video s still = elim (Bool-cases (leb s.video_card_end (newline s video))) [
  | inl e ↦ rw (still, e) refl
  | inr e ↦ rw (still, e) refl
]

same_test : (b : Bool) → (if b then true else b) ≡ b
same_test true = refl
same_test false = refl

-- The place and the screen that the first character finds.
abbrev pub first : Console → ℕ × Console
first s = scroll_first (s.video_card_position, s)

-- What the end of `kprintf` makes of the last place.
finish : (video : ℕ) (s : Console) → Console
unfolding check_end
finish video s = (check_end video (record s { video_card_position = video })).1

kprintf_run :
    (fmt : List ℕ) (args : List Argument) (s : Console) (video : ℕ) (t : Console)
    → kprintf_loop false fmt args (s.video_card_position, s) ≡ ok (video, t)
    → kprintf fmt args s ≡ ok (finish video t)
unfolding kprintf finish check_end
kprintf_run fmt args s video t run = rw run refl

loop-scroll_line :
    (text : List ℕ) (args : List Argument) (video : ℕ) (s : Console)
    → kprintf_loop false (text ++ 10 ∷ []) args (video, s)
      ≡ kprintf_loop false (text ++ 10 ∷ []) args (scroll_first (video, s))
loop-scroll_line [] args video s = loop-scroll_first 10 [] args video s
loop-scroll_line (ch ∷ text) args video s = loop-scroll_first ch (text ++ 10 ∷ []) args video s

-- A line of text, with no '%' in it, that `kprintf` prints with a newline behind it. The screen
-- scrolls first if it is full. Then the characters stand in order from the place where the last call
-- stopped, black on black, no other byte changes, and the next call goes on at the start of the
-- next line; the screen is full if that is behind the last line. The line does not reach the end of
-- the screen.
pub kprintf_line :
    (text : List ℕ) (args : List Argument) (s : Console)
    → IsPlain text
    → (first s).1.video_card_start ≤ (first s).0
    → (first s).0 + 2 * length text < (first s).1.video_card_end
    → (t : Console) × (kprintf (text ++ 10 ∷ []) args s ≡ ok t)
      × IsText text (first s).0 (first s).1.memory t.memory
      × IsNextLine
          (first s).1.video_card_start
          ((first s).0 + 2 * length text)
          t.video_card_position
      × (t.scroll_for_next_call ≡ leb (first s).1.video_card_end t.video_card_position)
unfolding finish
kprintf_line text args s plain lo hi =
    let video = (first s).0 in
    let s0 = (first s).1 in
    let last = video + 2 * length text in
    let (m, run, is) =
      plain_rounds text (10 ∷ []) args video s0 plain (still_after s.video_card_position s) hi in
    let s1 : Console = record s0 { memory = m; scroll_for_next_call = false } in
    let at = place_after s in
    let line = newline_lem s1 last (omega (arith, at)) (omega (arith, at)) in
    (
      finish (newline s1 last)
          (record s1 { scroll_for_next_call = leb s0.video_card_end (newline s1 last) }),
      kprintf_run (text ++ 10 ∷ []) args s (newline s1 last)
          (record s1 { scroll_for_next_call = leb s0.video_card_end (newline s1 last) })
          (loop-scroll_line text args s.video_card_position s ∙ run ∙ last_round args last s1 refl),
      is,
      line,
      same_test (leb s0.video_card_end (newline s1 last)),
    )
