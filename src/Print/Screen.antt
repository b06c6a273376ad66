-- ===== src/Print/Screen.antt =====
-- The text screen of sys/kprintf.c: 25 lines of 80 characters, each with its colour behind it.
pub mod Laws
use sbunix_public.Base.{ℕ, zero, suc, ◌+◌, ◌-◌, ◌*◌, Bool, ltb, if◌then◌else◌}
use sbunix_public.Memory.{Memory, store, add64}

-- The variables of the file, and the memory of the card.
pub record Console : Type 0 where
  pub video_card_start : ℕ
  pub video_card_end : ℕ
  pub video_card_position : ℕ
  pub scroll_for_next_call : Bool
  pub memory : Memory

-- `setNewVideoCardAddresses`, with the place in the kernel's half of the addresses.
pub set_new_video_card_addresses : Console → Console
set_new_video_card_addresses s = record s {
  video_card_end = 0xFFFFFFFF800B8FA0;
  video_card_start = 0xFFFFFFFF800B8000;
  video_card_position = add64 0xffffffff80000000 s.video_card_position;
}

-- The inner and the outer loop that move the lines up; `p` goes on from line to line.
unfoldable pub copy_line : Memory → (p left : ℕ) → Memory × ℕ
unfolding store
copy_line m p zero = (m, p)
copy_line m p (suc left) = copy_line (store m p (m (p + 160))) (p + 1) left

unfoldable pub copy_lines : Memory → (p left : ℕ) → Memory × ℕ
copy_lines m p zero = (m, p)
copy_lines m p (suc left) = let r = copy_line m p 160 in copy_lines r.0 r.1 left

-- The loop that blanks the last line, until `p` is behind the end.
unfoldable pub blank_line : (video_card_end : ℕ) → Memory → (p left : ℕ) → Memory
unfolding store
blank_line e m p zero = m
blank_line e m p (suc left) =
    let rest = blank_line e (store m p 32) (p + 2) left in if ltb e p then m else rest

pub scroll : Console → Memory
scroll s =
    let r = copy_lines s.memory s.video_card_start 24 in blank_line s.video_card_end r.0 r.1 160

-- The loop of `initScreen`.
unfoldable pub init_cells : Memory → (p left : ℕ) → Memory
unfolding store
init_cells m p zero = m
init_cells m p (suc left) = init_cells (store m p 32) (p + 2) left

pub init_screen : Console → Memory
init_screen s = init_cells s.memory s.video_card_start 4000
