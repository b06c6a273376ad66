-- ===== src/Print/Tests.antt =====
-- The printers at 0xcafe and at -42.
use sbunix_public.Base.{◌+◌, ℕ, ◌*◌, ◌≡◌, ◌<◌, arith, ok}
use sbunix_public.Memory.{Memory}
use sbunix_public.Print.{print_pointer, print_int, pos, negsuc}
use sbunix_public.Print.Digits.{Prints, IsShown, signed, print_pointer_lem, print_int_lem}

abbrev screen : Memory
screen a = 32

print_pointer_example : Prints 16 0xb8000 7 0xcafe screen (print_pointer 17 0xb8000 7 0xcafe screen)
print_pointer_example = print_pointer_lem 16 0xb8000 7 0xcafe screen (omega arith)

print_int_example :
    ((count : ℕ) × (m' : Memory) × (print_int 11 0xb8000 7 (pos 42) screen ≡ ok (2 * count, m'))
      × IsShown 10 0xb8000 7 42 count screen m'
      × (0 < count))
    × ((count : ℕ) × (m' : Memory) × (print_int 11 0xb8000 7 (negsuc 41) screen
          ≡ ok (2 * count, m'))
        × IsShown 10 (0xb8000 + 2) 7 42 count (signed 0xb8000 7 screen) m'
        × (m' 0xb8000 ≡ 45))
print_int_example = print_int_lem 10 0xb8000 7 41 screen (omega arith) (omega arith)
