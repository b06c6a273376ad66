-- ===== src/Paging/Walk/Recursive.antt =====
-- The arithmetic of the recursive slot: where `page_walk` looks, and what stands there.
use Prim.Native.Nat.{bit_and, bit_or}
use sbunix_public.Base.{ℕ, ◌+◌, ◌*◌, ◌/◌, ◌%◌, ◌^◌, ◌≡◌, arith, ap, ◌∙◌}
use sbunix_public.Base.Bits.{bit_and-field, bit_or-add_swap}
use sbunix_public.Paging.Walk.{pml4_rec_addr, pdpe_rec_addr, pgd_rec_addr, pte_rec_addr}
use sbunix_public.Paging.Walk.Mmu.{pml4_index, pdpe_index, pgd_index, pte_index}

-- The entry of the PML4 for `v` is seen at index 510, 510, 510, 510, offset 8 times its index.
pub pml4_rec_addr_lem : (v : ℕ) → pml4_rec_addr v ≡ 0xffff_ff7f_bfdf_e000 + 8 * pml4_index v
unfolding pml4_rec_addr
pml4_rec_addr_lem v =
    let mask : bit_and v 0x0000_ff80_0000_0000 ≡ v / 2 ^ 39 % 2 ^ 9 * 2 ^ 39 =
      bit_and-field 39 9 v in
    let part : bit_and v 0x0000_ff80_0000_0000 / 2 ^ 36 ≡ 8 * pml4_index v = omega (arith, mask) in
    ap (λ (x : ℕ). bit_or x 0xffff_ff7f_bfdf_e000) part
    ∙ bit_or-add_swap 12 (0xffff_ff7f_bfdf_e000 / 2 ^ 12) (8 * pml4_index v) (omega arith)

-- The entry of the page directory pointer table: index 510, 510, 510 and that of the PML4.
pub pdpe_rec_addr_lem :
    (v : ℕ) → pdpe_rec_addr v ≡ 0xffff_ff7f_bfc0_0000 + 4096 * pml4_index v + 8 * pdpe_index v
unfolding pdpe_rec_addr
pdpe_rec_addr_lem v =
    let mask : bit_and v 0x0000_ffff_c000_0000 ≡ v / 2 ^ 30 % 2 ^ 18 * 2 ^ 30 =
      bit_and-field 30 18 v in
    let part : bit_and v 0x0000_ffff_c000_0000 / 2 ^ 27 ≡ 4096 * pml4_index v + 8 * pdpe_index v =
      omega (arith, mask) in
    ap (λ (x : ℕ). bit_or x 0xffff_ff7f_bfc0_0000) part
    ∙ bit_or-add_swap 21 (0xffff_ff7f_bfc0_0000 / 2 ^ 21) (4096 * pml4_index v + 8 * pdpe_index v)
        (omega arith)
    ∙ omega arith

-- The entry of the page directory: index 510, 510 and those of the two tables above.
pub pgd_rec_addr_lem :
    (v : ℕ)
    → pgd_rec_addr v
      ≡ 0xffff_ff7f_8000_0000 + 2 ^ 21 * pml4_index v + 4096 * pdpe_index v + 8 * pgd_index v
unfolding pgd_rec_addr
pgd_rec_addr_lem v =
    let mask : bit_and v 0x0000_ffff_ffe0_0000 ≡ v / 2 ^ 21 % 2 ^ 27 * 2 ^ 21 =
      bit_and-field 21 27 v in
    let part : bit_and v 0x0000_ffff_ffe0_0000 / 2 ^ 18
        ≡ 2 ^ 21 * pml4_index v + 4096 * pdpe_index v + 8 * pgd_index v =
      omega (arith, mask) in
    ap (λ (x : ℕ). bit_or x 0xffff_ff7f_8000_0000) part
    ∙ bit_or-add_swap 30 (0xffff_ff7f_8000_0000 / 2 ^ 30)
        (2 ^ 21 * pml4_index v + 4096 * pdpe_index v + 8 * pgd_index v) (omega arith)
    ∙ omega arith

-- The entry of the page table: index 510 and those of the three tables above.
pub pte_rec_addr_lem :
    (v : ℕ)
    → pte_rec_addr v
      ≡ 0xffff_ff00_0000_0000
        + 2 ^ 30 * pml4_index v
        + 2 ^ 21 * pdpe_index v
        + 4096 * pgd_index v
        + 8 * pte_index v
unfolding pte_rec_addr
pte_rec_addr_lem v =
    let mask : bit_and v 0x0000_ffff_ffff_f000 ≡ v / 2 ^ 12 % 2 ^ 36 * 2 ^ 12 =
      bit_and-field 12 36 v in
    let part : bit_and v 0x0000_ffff_ffff_f000 / 2 ^ 9
        ≡ 2 ^ 30 * pml4_index v + 2 ^ 21 * pdpe_index v + 4096 * pgd_index v + 8 * pte_index v =
      omega (arith, mask) in
    ap (λ (x : ℕ). bit_or x 0xffff_ff00_0000_0000) part
    ∙ bit_or-add_swap 39 (0xffff_ff00_0000_0000 / 2 ^ 39)
        (2 ^ 30 * pml4_index v + 2 ^ 21 * pdpe_index v + 4096 * pgd_index v + 8 * pte_index v)
        (omega arith)
    ∙ omega arith
