-- ===== src/Paging/Address.antt =====
-- The address arithmetic of sys/paging.c, on 64-bit words.
pub mod Laws
mod Tests
use Prim.Native.Nat.{bit_and}
use sbunix_public.Base.{ℕ, ◌+◌, ◌-◌, ◌*◌, ◌/◌, ◌%◌, ◌^◌, ltb, leb, ◌==◌, if◌then◌else◌}
use sbunix_public.Memory.{add64, sub64}

abbrev pub kernbase : ℕ
kernbase = 0xffff_ffff_8000_0000

abbrev pub pagesize : ℕ
pagesize = 4096

pub to_virtual : ℕ → ℕ
to_virtual phy_add =
    if ltb phy_add kernbase then add64 (phy_add / 0x1000 * 0x1000) kernbase else phy_add

unfoldable pub page_align : ℕ → ℕ
page_align addr = addr / 0x1000 * 0x1000

unfoldable pub round_up : ℕ → ℕ
round_up addr =
    if addr % pagesize == 0 then addr / 0x1000 * 0x1000 else add64 (addr / 0x1000 * 0x1000) 0x1000

pub to_physical : ℕ → ℕ
to_physical vir_add = sub64 (vir_add / 0x1000 * 0x1000) kernbase

pub get_offset : ℕ → ℕ → ℕ
get_offset addr shift = bit_and (addr / 2 ^ shift) 0x1ff

unfoldable pub is_valid_page : ℕ → ℕ
is_valid_page page_address = if bit_and page_address 0x03 == 0x03 then 1 else 0

-- The kernel's own view of physical memory: identical at the bottom, and once more from `kernbase`
-- on, where the loader and later `map_all_kernel_pages` map it. The physical address behind it.
abbrev pub behind : ℕ → ℕ
behind a = if leb kernbase a then a - kernbase else a
