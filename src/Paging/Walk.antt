-- ===== src/Paging/Walk.antt =====
-- `page_walk`, `page_walk_user` and the `kmalloc` family of sys/paging.c. The entries of the four
-- tables are read and written through the recursive slot 510 of the PML4. The processor's address
-- translation is not code of the kernel: it is the parameter `translate` of the section, from
-- memory, CR3 and a virtual address to a physical one; `none` is a page fault.
pub mod Mmu
pub mod Recursive
pub mod Entries
pub mod Level
pub mod Maps
pub mod Tables
pub mod PageWalk
pub mod NewPml4
pub mod Kmalloc
mod Tests
use Prim.Native.Nat.{bit_and, bit_or}
use sbunix_public.Base.{
  ℕ, zero, suc, ◌+◌, ◌-◌, ◌*◌, ◌/◌, ◌%◌, ◌^◌, Run, ok, fault, ◌>>=◌, ◌==◌, if◌then◌else◌, Option,
  none, some,
}
use sbunix_public.Memory.{Memory, store, add64}
use sbunix_public.Paging.Address.{pagesize, is_valid_page}
use sbunix_public.Paging.FreeList.{Pages, pages_for, get_next_free_page_kmalloc}

abbrev pub page_kernel : ℕ
page_kernel = 3

abbrev pub page_user : ℕ
page_user = 7

-- The list of pages, CR3, and the globals that `set_top_virtual_address` sets.
pub record Machine : Type 0 where
  pub pages : Pages
  pub cr3 : ℕ
  pub top_virtual_address : ℕ
  pub paging_user_stack_top : ℕ

pub set_top_virtual_address : ℕ → Machine → Machine
set_top_virtual_address v_addr s = record s {
  top_virtual_address = v_addr;
  paging_user_stack_top = 0xffff_fe00_0000_0000 + 0x1000 - 0x8;
}

unfoldable pub set_cr3 : ℕ → Machine → Machine
set_cr3 pml4_t s = record s { cr3 = pml4_t }

-- Where the entries for a virtual address are seen.
unfoldable pub pml4_rec_addr : ℕ → ℕ
pml4_rec_addr v_addr = bit_or (bit_and v_addr 0x0000_ff80_0000_0000 / 2 ^ 36) 0xffff_ff7f_bfdf_e000

unfoldable pub pdpe_rec_addr : ℕ → ℕ
pdpe_rec_addr v_addr = bit_or (bit_and v_addr 0x0000_ffff_c000_0000 / 2 ^ 27) 0xffff_ff7f_bfc0_0000

unfoldable pub pgd_rec_addr : ℕ → ℕ
pgd_rec_addr v_addr = bit_or (bit_and v_addr 0x0000_ffff_ffe0_0000 / 2 ^ 18) 0xffff_ff7f_8000_0000

unfoldable pub pte_rec_addr : ℕ → ℕ
pte_rec_addr v_addr = bit_or (bit_and v_addr 0x0000_ffff_ffff_f000 / 2 ^ 9) 0xffff_ff00_0000_0000

module _ (translate : Memory → ℕ → ℕ → Option ℕ) where
  -- `*p` and `*p = x` at a virtual address.
  unfoldable pub load : ℕ → Machine → Run ℕ
  load p s = elim (translate s.pages.mem s.cr3 p) [ none ↦ fault | some a ↦ ok (s.pages.mem a) ]

  unfoldable pub set_word : ℕ → ℕ → Machine → Run Machine
  set_word p x s = elim (translate s.pages.mem s.cr3 p) [
    | none ↦ fault
    | some a ↦ ok (record s { pages = record (s.pages) { mem = store s.pages.mem a x } })
  ]

  module _ (flags p_addr v_addr : ℕ) where
    -- `physical_page = get_next_free_page_kmalloc(); *entry = physical_page | flags;`
    unfoldable pub new_table : ℕ → Machine → Run Machine
    new_table entry s =
        let (physical_page, pages) = get_next_free_page_kmalloc s.pages in
        set_word entry (bit_or physical_page flags) (record s { pages = pages })

    -- `*pte_rec_addr = p_addr | flags; return 1;`
    unfoldable pub set_pte : Machine → Run (ℕ × Machine)
    set_pte s = do s' ← set_word (pte_rec_addr v_addr) (bit_or p_addr flags) s; ok (1, s')

    unfoldable pub walk_pte : Machine → Run (ℕ × Machine)
    walk_pte s =
        load (pte_rec_addr v_addr) s >>= λ e. if is_valid_page e == 1 then ok (0, s) else set_pte s

    unfoldable pub walk_pgd : Machine → Run (ℕ × Machine)
    walk_pgd s = load (pgd_rec_addr v_addr) s >>= λ e.
        if is_valid_page e == 1 then walk_pte s else (new_table (pgd_rec_addr v_addr) s >>= set_pte)

    unfoldable pub walk_pdpe : Machine → Run (ℕ × Machine)
    walk_pdpe s = load (pdpe_rec_addr v_addr) s >>= λ e.
        if is_valid_page e == 1
        then walk_pgd s
        else (new_table (pdpe_rec_addr v_addr) s >>= new_table (pgd_rec_addr v_addr) >>= set_pte)

    unfoldable pub walk_pml4 : Machine → Run (ℕ × Machine)
    walk_pml4 s = load (pml4_rec_addr v_addr) s >>= λ e.
        if is_valid_page e == 1
        then walk_pdpe s
        else (new_table (pml4_rec_addr v_addr) s
            >>= new_table (pdpe_rec_addr v_addr)
            >>= new_table (pgd_rec_addr v_addr)
            >>= set_pte)

  pub page_walk : ℕ → ℕ → Machine → Run (ℕ × Machine)
  page_walk p_addr v_addr s = walk_pml4 page_kernel p_addr v_addr s

  unfoldable pub page_walk_user : ℕ → ℕ → Machine → Run (ℕ × Machine)
  page_walk_user p_addr v_addr s = walk_pml4 page_user p_addr v_addr s

  -- The loop of the `kmalloc` family: `left` rounds to go. The first result is false where the
  -- function returns 0 from inside the loop; `step` is what a round adds to `top_virtual_address`.
  unfoldable pub kmalloc_loop :
      (ℕ → ℕ → Machine → Run (ℕ × Machine)) → ℕ → ℕ → ℕ → Machine → Run (ℕ × Machine)
  kmalloc_loop walk step zero v_addr s = ok (1, s)
  kmalloc_loop walk step (suc left) v_addr s =
      let (p_addr, pages) = get_next_free_page_kmalloc s.pages in
      let s' = record s { pages = pages } in
      let next = λ (r : ℕ × Machine).
        let t = r.1 in
        let moved = record t { top_virtual_address = add64 t.top_virtual_address step } in
        let rest = kmalloc_loop walk step left (add64 v_addr pagesize) moved in
        if r.0 == 0 then ok (0, t) else rest in
      if p_addr == 0 then ok (0, s') else (walk p_addr v_addr s' >>= next)

  -- `top` if every page was mapped, and 0 if not.
  unfoldable pub finish_kmalloc : ℕ → ℕ × Machine → Run (ℕ × Machine)
  finish_kmalloc top (done, s) = ok (if done == 0 then 0 else top, s)

  pub kmalloc : ℕ → Machine → Run (ℕ × Machine)
  kmalloc size s =
      kmalloc_loop page_walk pagesize (pages_for size) s.top_virtual_address s
      >>= finish_kmalloc s.top_virtual_address

  unfoldable pub kmalloc_user : ℕ → Machine → Run (ℕ × Machine)
  kmalloc_user size s =
      kmalloc_loop page_walk_user pagesize (pages_for size + 1) s.top_virtual_address s
      >>= finish_kmalloc s.top_virtual_address

  -- The caller's address in place of the global, which stays as it is.
  pub kmalloc_top_virtual_address_kernel : ℕ → ℕ → Machine → Run (ℕ × Machine)
  kmalloc_top_virtual_address_kernel size top s =
      kmalloc_loop page_walk 0 (pages_for size) top s >>= finish_kmalloc top

  unfoldable pub kmalloc_top_virtual_address_user : ℕ → ℕ → Machine → Run (ℕ × Machine)
  kmalloc_top_virtual_address_user size top s =
      kmalloc_loop page_walk_user 0 (pages_for size) top s >>= finish_kmalloc top
