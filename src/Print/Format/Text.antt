-- ===== src/Print/Format/Text.antt =====
-- What `kprintf` of sys/kprintf.c shows of a line of text.
use sbunix_public.Base.{
  get_or, lt→leb_false, ℕ, zero, suc, ◌+◌, ◌*◌, ◌%◌, ◌<◌, ◌≤◌, ◌≡◌, ◌≢◌, ◌⊎◌, inl, refl, ap, ◌∙◌,
  arith, Bool, false, ne→==, List, [], ◌∷◌, ◌++◌, length,
}
use sbunix_public.Memory.{Memory, store}
use sbunix_public.Print.Screen.{Console}
use sbunix_public.Print.Format.{Argument, put_char, scroll_first, check_end, kprintf_loop}

-- Characters that are neither '%' nor a newline.
pub data IsPlain : List ℕ → Type 0 where
  no_char : IsPlain []
  plain_char : (ch : ℕ) (fmt : List ℕ) → ch ≢ 37 → ch ≢ 10 → IsPlain fmt → IsPlain (ch ∷ fmt)

-- From `video` on, memory shows the characters, with black behind each, and differs from `m` nowhere
-- else.
pub record IsText (str : List ℕ) (video : ℕ) (m m' : Memory) : Type 0 where
  pub chars : (k : ℕ) → k < length str → m' (video + 2 * k) ≡ get_or str k 0 % 256
  pub colours : (k : ℕ) → k < length str → m' (video + 2 * k + 1) ≡ 0
  pub kept : (a : ℕ) → (a < video) ⊎ (video + 2 * length str ≤ a) → m' a ≡ m a

empty-IsText : (video : ℕ) (m : Memory) → IsText [] video m m
empty-IsText video m = record {
  chars = λ k h. absurd (omega arith);
  colours = λ k h. absurd (omega arith);
  kept = λ a h. refl;
}

put_char_at : (m : Memory) (video ch : ℕ) → put_char m video ch video ≡ ch % 256
unfolding put_char store
put_char_at m video ch = ground arith

put_char_colour : (m : Memory) (video ch : ℕ) → put_char m video ch (video + 1) ≡ 0
unfolding put_char store
put_char_colour m video ch = ground arith

put_char_other :
    (m : Memory) (video ch a : ℕ) → (a < video) ⊎ (video + 2 ≤ a) → put_char m video ch a ≡ m a
unfolding put_char store
put_char_other m video ch a h = ground arith

cons_chars :
    (ch : ℕ) (str : List ℕ) (video : ℕ) (m m' : Memory)
    → IsText str (video + 2) (put_char m video ch) m'
    → (k : ℕ) → k < suc (length str)
    → m' (video + 2 * k) ≡ get_or (ch ∷ str) k 0 % 256
cons_chars ch str video m m' is zero h =
    ap m' (omega arith) ∙ is.kept video (inl (omega arith)) ∙ put_char_at m video ch
cons_chars ch str video m m' is (suc k) h = ap m' (omega arith) ∙ is.chars k (omega arith)

cons_colours :
    (ch : ℕ) (str : List ℕ) (video : ℕ) (m m' : Memory)
    → IsText str (video + 2) (put_char m video ch) m'
    → (k : ℕ) → k < suc (length str)
    → m' (video + 2 * k + 1) ≡ 0
cons_colours ch str video m m' is zero h =
    ap m' (omega arith) ∙ is.kept (video + 1) (inl (omega arith)) ∙ put_char_colour m video ch
cons_colours ch str video m m' is (suc k) h = ap m' (omega arith) ∙ is.colours k (omega arith)

cons-IsText :
    (ch : ℕ) (str : List ℕ) (video : ℕ) (m m' : Memory)
    → IsText str (video + 2) (put_char m video ch) m'
    → IsText (ch ∷ str) video m m'
cons-IsText ch str video m m' is = record {
  chars = cons_chars ch str video m m' is;
  colours = cons_colours ch str video m m' is;
  kept = λ a h. is.kept a (omega arith) ∙ put_char_other m video ch a (omega arith);
}

-- A round that starts on a screen that does not scroll.
plain_round :
    (ch : ℕ) (fmt : List ℕ) (args : List Argument) (video : ℕ) (s : Console)
    → ch ≢ 37
    → ch ≢ 10
    → s.scroll_for_next_call ≡ false
    → video + 2 < s.video_card_end
    → kprintf_loop false (ch ∷ fmt) args (video, s)
      ≡ kprintf_loop false fmt args (
        video + 2,
        record s { memory = put_char s.memory video ch; scroll_for_next_call = false },
      )
unfolding kprintf_loop scroll_first check_end
plain_round ch fmt args video s no_percent no_newline still room =
    let e1 = ne→== ch 37 no_percent in
    let e2 = ne→== ch 10 no_newline in
    let e3 = lt→leb_false s.video_card_end (video + 2) room in
    rw (still, kprintf_loop, e1, e2, e3) refl

-- The text without what stands behind it.
pub plain_rounds :
    (str fmt : List ℕ) (args : List Argument) (video : ℕ) (s : Console)
    → IsPlain str
    → s.scroll_for_next_call ≡ false
    → video + 2 * length str < s.video_card_end
    → (m : Memory) × (kprintf_loop false (str ++ fmt) args (video, s)
        ≡ kprintf_loop false fmt args
            (video + 2 * length str, record s { memory = m; scroll_for_next_call = false }))
      × IsText str video s.memory m
plain_rounds [] fmt args video s no_char still room =
    let at : video ≡ video + 2 * 0 = omega arith in
    (
      s.memory,
      ap
          (λ (v : ℕ × Bool).
            kprintf_loop false fmt args (v.0, record s { scroll_for_next_call = v.1 }))
          (λ i. (at i, still i)),
      empty-IsText video s.memory,
    )
plain_rounds (ch ∷ str) fmt args video s (plain_char _ _ no_percent no_newline plain) still room =
    let s1 : Console = record s {
      memory = put_char s.memory video ch;
      scroll_for_next_call = false;
    } in
    let (m, run, is) = plain_rounds str fmt args (video + 2) s1 plain refl (omega arith) in
    let at : video + 2 + 2 * length str ≡ video + 2 * suc (length str) = omega arith in
    (
      m,
      plain_round ch (str ++ fmt) args video s no_percent no_newline still (omega arith)
          ∙ run
          ∙ ap
              (λ (v : ℕ).
                kprintf_loop false fmt args
                  (v, record s { memory = m; scroll_for_next_call = false }))
              at,
      cons-IsText ch str video s.memory m is,
    )
