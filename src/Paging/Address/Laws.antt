-- ===== src/Paging/Address/Laws.antt =====
-- Rounding, the passage between physical and virtual addresses, and the two flag bits of an entry.
use sbunix_public.Base.{ℕ, ◌+◌, ◌-◌, ◌/◌, ◌%◌, ◌^◌, ◌≤◌, ◌<◌, ◌≡◌, ◌↔◌, arith}
use sbunix_public.Base.Bits.{bit_and-ones}
use sbunix_public.Paging.Address.{
  kernbase, to_virtual, page_align, round_up, to_physical, get_offset, is_valid_page,
}

-- `page_align` is the last page boundary at or below an address, and `round_up` the first at or
-- above it, for every address at most one page below 2^64.
pub round_up_least :
    (addr : ℕ)
    → addr ≤ 2 ^ 64 - 4096
    → (page_align addr % 4096 ≡ 0)
      × (page_align addr ≤ addr)
      × (round_up addr % 4096 ≡ 0)
      × (addr ≤ round_up addr)
      × (addr < page_align addr + 4096)
      × (round_up addr < addr + 4096)
unfolding page_align round_up
round_up_least addr h = ground arith

-- In the last page of the address space `round_up` wraps round to 0.
round_up_wraps : (addr : ℕ) → 2 ^ 64 - 4096 < addr → addr < 2 ^ 64 → round_up addr ≡ 0
unfolding round_up
round_up_wraps addr lo hi = ground arith

-- Below 2 GB, `to_physical` takes the virtual address of a page back to the page, and `to_virtual`
-- is above `KERNBASE` and changes no address that is already there.
to_physical-to_virtual :
    (p : ℕ)
    → p < 2 ^ 31
    → (to_physical (to_virtual p) ≡ page_align p)
      × (kernbase ≤ to_virtual p)
      × (to_virtual (to_virtual p) ≡ to_virtual p)
unfolding to_physical to_virtual page_align
to_physical-to_virtual p h = ground arith

pub get_offset_lem : (addr shift : ℕ) → get_offset addr shift ≡ addr / 2 ^ shift % 512
unfolding get_offset
get_offset_lem addr shift = bit_and-ones 9 (addr / 2 ^ shift)

-- `is_valid_page` is 1 exactly where the present bit and the write bit are both set.
pub is_valid_page_iff : (e : ℕ) → (is_valid_page e ≡ 1) ↔ (e % 4 ≡ 3)
unfolding is_valid_page
is_valid_page_iff e = (λ h. ground (arith, bit_and-ones 2 e), λ h. ground (arith, bit_and-ones 2 e))
