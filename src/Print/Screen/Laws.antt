-- ===== src/Print/Screen/Laws.antt =====
-- What `scroll` and `initScreen` of sys/kprintf.c make of the memory of the card.
use sbunix_public.Base.{
  ℕ, zero, suc, ◌+◌, ◌*◌, ◌%◌, ◌<◌, ◌≤◌, ◌≡◌, ◌≢◌, ◌⊎◌, inl, inr, refl, sym, ap, ◌∙◌, arith, ltb,
  ◌==◌, Bool-cases, ltb→lt,
}
use sbunix_public.Memory.{Memory, store}
use sbunix_public.Print.Screen.{
  Console, copy_line, copy_lines, blank_line, scroll, init_cells, init_screen,
}

-- Each byte of a range takes the value 160 bytes behind it, as it was.
copy_line_lem :
    (left : ℕ) (m : Memory) (p : ℕ)
    → ((copy_line m p left).1 ≡ p + left)
      × ((a : ℕ) → p ≤ a → a < p + left → (copy_line m p left).0 a ≡ m (a + 160))
      × ((a : ℕ) → (a < p) ⊎ (p + left ≤ a) → (copy_line m p left).0 a ≡ m a)
unfolding copy_line store
copy_line_lem zero m p = (omega arith, λ a lo hi. absurd (omega arith), λ a h. refl)
copy_line_lem (suc left) m p =
    let (place, moved, kept) = copy_line_lem left (store m p (m (p + 160))) (p + 1) in
    (
      place ∙ omega arith,
      λ a lo hi. elim (Bool-cases (a == p)) [
        | inl e ↦ ground (arith, kept a (inl (ground arith)))
        | inr n ↦ moved a (ground arith) (omega arith) ∙ ground arith
      ],
      λ a h. kept a (omega arith) ∙ ground arith,
    )

copy_lines_lem :
    (left : ℕ) (m : Memory) (p : ℕ)
    → ((copy_lines m p left).1 ≡ p + 160 * left)
      × ((a : ℕ) → p ≤ a → a < p + 160 * left → (copy_lines m p left).0 a ≡ m (a + 160))
      × ((a : ℕ) → (a < p) ⊎ (p + 160 * left ≤ a) → (copy_lines m p left).0 a ≡ m a)
unfolding copy_lines
copy_lines_lem zero m p = (omega arith, λ a lo hi. absurd (omega arith), λ a h. refl)
copy_lines_lem (suc left) m p =
    let (at, line, out) = copy_line_lem 160 m p in
    let (place, moved, kept) = copy_lines_lem left (copy_line m p 160).0 (copy_line m p 160).1 in
    (
      omega (arith, place, at),
      λ a lo hi. elim (Bool-cases (ltb a (p + 160))) [
        | inl e ↦ let b = ltb→lt a (p + 160) e in kept a (inl (omega (arith, at))) ∙ line a lo b
        | inr n ↦
            let b : p + 160 ≤ a = ground arith in
            moved a (omega (arith, at)) (omega (arith, at)) ∙ out (a + 160) (inr (omega arith))
      ],
      λ a h. kept a (omega (arith, at)) ∙ out a (omega arith),
    )

blank_line-out :
    (left e : ℕ) (m : Memory) (p a : ℕ) → (a < p) ⊎ (e < a) → blank_line e m p left a ≡ m a
unfolding blank_line store
blank_line-out zero e m p a h = refl
blank_line-out (suc left) e m p a h =
    ground (arith, blank_line-out left e (store m p 32) (p + 2) a (omega arith))

-- The bytes between the characters stay.
blank_line-colours :
    (left e : ℕ) (m : Memory) (p a : ℕ) → a % 2 ≢ p % 2 → blank_line e m p left a ≡ m a
unfolding blank_line store
blank_line-colours zero e m p a h = refl
blank_line-colours (suc left) e m p a h =
    let ne : a ≢ p = λ q. h (ap (λ (x : ℕ). x % 2) q) in
    ground
      (arith, ne, blank_line-colours left e (store m p 32) (p + 2) a (λ q. h (omega (arith, q))))

blank_line-blank :
    (left e : ℕ) (m : Memory) (p k : ℕ)
    → k < left
    → p + 2 * k ≤ e
    → blank_line e m p left (p + 2 * k) ≡ 32
unfolding blank_line store
blank_line-blank zero e m p k lo hi = absurd (omega arith)
blank_line-blank (suc left) e m p zero lo hi =
    ground (arith, blank_line-out left e (store m p 32) (p + 2) p (inl (omega arith)))
blank_line-blank (suc left) e m p (suc k) lo hi =
    let rest = blank_line-blank left e (store m p 32) (p + 2) k (omega arith) (omega arith) in
    let at : p + 2 + 2 * k ≡ p + 2 * suc k = omega arith in
    let seen = rw at at rest in ground (arith, seen)

-- `scroll` moves every line of the screen up by one, colours included, and blanks the characters of
-- the last line, whose colours stay. It also writes a blank to the byte behind the screen, and no
-- other byte changes. The screen has 25 lines of 160 bytes.
pub scroll_lem :
    (s : Console)
    → s.video_card_end ≡ s.video_card_start + 4000
    → ((a : ℕ)
        → s.video_card_start ≤ a
        → a < s.video_card_start + 3840
        → scroll s a ≡ s.memory (a + 160))
      × ((k : ℕ) → k < 81 → scroll s (s.video_card_start + 3840 + 2 * k) ≡ 32)
      × ((k : ℕ)
          → k < 80
          → scroll s (s.video_card_start + 3840 + 2 * k + 1)
            ≡ s.memory (s.video_card_start + 3840 + 2 * k + 1))
      × ((a : ℕ) → (a < s.video_card_start) ⊎ (s.video_card_end < a) → scroll s a ≡ s.memory a)
unfolding scroll
scroll_lem s size =
    let e = s.video_card_end in
    let start = s.video_card_start in
    let (at, moved, kept) = copy_lines_lem 24 s.memory start in
    let m = (copy_lines s.memory start 24).0 in
    let p = (copy_lines s.memory start 24).1 in
    let place : p ≡ start + 3840 = at ∙ omega arith in
    (
      λ a lo hi. blank_line-out 160 e m p a (inl (omega (arith, place))) ∙ moved a lo (omega arith),
      λ k hi.
          ap (λ (x : ℕ). blank_line e m p 160 (x + 2 * k)) (sym place)
          ∙ blank_line-blank 160 e m p k (omega arith) (omega (arith, place, size)),
      λ k hi.
          blank_line-colours 160 e m p (start + 3840 + 2 * k + 1)
            (λ q. absurd (omega (arith, place, q)))
          ∙ kept (start + 3840 + 2 * k + 1) (inr (omega arith)),
      λ a h. blank_line-out 160 e m p a (omega (arith, place, size)) ∙ kept a (omega (arith, size)),
    )

init_cells-out : (left : ℕ) (m : Memory) (p a : ℕ) → (a < p) → init_cells m p left a ≡ m a
unfolding init_cells store
init_cells-out zero m p a h = refl
init_cells-out (suc left) m p a h =
    ground (arith, init_cells-out left (store m p 32) (p + 2) a (omega arith))

init_cells-blank :
    (left : ℕ) (m : Memory) (p k : ℕ) → k < left → init_cells m p left (p + 2 * k) ≡ 32
unfolding init_cells store
init_cells-blank zero m p k lo = absurd (omega arith)
init_cells-blank (suc left) m p zero lo =
    ground (arith, init_cells-out left (store m p 32) (p + 2) p (omega arith))
init_cells-blank (suc left) m p (suc k) lo =
    let at : p + 2 + 2 * k ≡ p + 2 * suc k = omega arith in
    rw at at (init_cells-blank left (store m p 32) (p + 2) k (omega arith))

-- `initScreen` blanks 4000 characters: the screen and 2000 characters behind it.
init_screen_lem : (s : Console) (k : ℕ) → k < 4000 → init_screen s (s.video_card_start + 2 * k) ≡ 32
unfolding init_screen
init_screen_lem s k h = init_cells-blank 4000 s.memory s.video_card_start k h
