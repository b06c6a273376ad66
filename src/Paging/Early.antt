-- ===== src/Paging/Early.antt =====
-- Before the kernel's own tables are in use: `create_kernel_pml4` and `map_all_kernel_pages` of
-- sys/paging.c, which reach the tables through the addresses from KERNBASE on, and the older
-- `map_mem_to_pages` and `create_free_list`, which list the whole memory at once.
pub mod Root
mod Tests
use Prim.Native.Nat.{bit_and, bit_or}
use sbunix_public.Base.{
  ℕ, zero, suc, ◌+◌, ◌*◌, ◌/◌, ◌%◌, ◌^◌, Run, ok, out_of_fuel, ◌>>=◌, ◌>>◌, fault_if, ltb, leb,
  ◌==◌, if◌then◌else◌, Bool, true, false,
}
use sbunix_public.Memory.{Memory, store, add64}
use sbunix_public.Paging.Address.{kernbase, pagesize, to_virtual, page_align, is_valid_page, behind}
use sbunix_public.Paging.FreeList.{Pages, sizeof_page, allocated, pages_for, get_next_free_page}

-- The list of pages and two globals of paging.h.
pub record Early : Type 0 where
  pub pages : Pages
  pub kernel_cr3 : ℕ
  pub kernel_pml4_t : ℕ

-- An entry at a virtual address from KERNBASE on.
pub read_entry : ℕ → Pages → ℕ
read_entry a s = s.mem (behind a)

pub write_entry : ℕ → ℕ → Pages → Pages
unfolding store
write_entry a x s = record s { mem = store s.mem (behind a) x }

pub create_kernel_pml4 : Early → ℕ × Early
create_kernel_pml4 s =
    let (pml4_t, pages) = get_next_free_page s.pages in
    let kernel_pml4 = add64 pml4_t kernbase in
    (
      kernel_pml4,
      record s {
        pages = write_entry (add64 kernel_pml4 (8 * 510)) (bit_or pml4_t 3) pages;
        kernel_cr3 = pml4_t;
        kernel_pml4_t = kernel_pml4;
      },
    )

-- The entry for `v` in the table that another entry refers to; `shift` says which level it is.
pub entry_in : (entry v shift : ℕ) → ℕ
entry_in entry v shift = add64 (to_virtual entry) (8 * bit_and (v / 2 ^ shift) 0x1ff)

module _ (v p : ℕ) where
  -- `pte_vir_add[pte_offset] = p_addr_start | PAGE_KERNEL`
  pub map_page : (pte_base_add : ℕ) → Pages → Pages
  map_page pte_base_add s = write_entry (entry_in pte_base_add v 12) (bit_or p 3) s

  -- With a new page table, and with a new table of each level above it.
  pub map_with_pt : (pgd_entry : ℕ) → Pages → Pages
  map_with_pt pgd_entry s =
      let (pte_base_add, t) = get_next_free_page s in
      map_page pte_base_add (write_entry pgd_entry (bit_or pte_base_add 3) t)

  pub map_with_pgd : (pdpe_entry : ℕ) → Pages → Pages
  map_with_pgd pdpe_entry s =
      let (pgd_base_add, t) = get_next_free_page s in
      map_with_pt (entry_in pgd_base_add v 21) (write_entry pdpe_entry (bit_or pgd_base_add 3) t)

  pub map_with_pdpt : (pml4_entry : ℕ) → Pages → Pages
  map_with_pdpt pml4_entry s =
      let (pdpe_base_add, t) = get_next_free_page s in
      map_with_pgd (entry_in pdpe_base_add v 30) (write_entry pml4_entry (bit_or pdpe_base_add 3) t)

  -- The body of the loop of `map_all_kernel_pages`.
  pub map_one_page : (kernel_pml4 : ℕ) → Pages → Pages
  map_one_page kernel_pml4 s =
      let pml4_entry = add64 kernel_pml4 (8 * bit_and (v / 2 ^ 39) 0x1ff) in
      let pdpe_entry = entry_in (read_entry pml4_entry s) v 30 in
      let pgd_entry = entry_in (read_entry pdpe_entry s) v 21 in
      if is_valid_page (read_entry pml4_entry s) == 0
      then map_with_pdpt pml4_entry s
      else (if is_valid_page (read_entry pdpe_entry s) == 0
          then map_with_pgd pdpe_entry s
          else (if is_valid_page (read_entry pgd_entry s) == 0
              then map_with_pt pgd_entry s
              else map_page (read_entry pgd_entry s) s))

pub map_pages_loop : (fuel v v_end p kernel_pml4 : ℕ) → Pages → Run Pages
map_pages_loop zero v v_end p kernel_pml4 s = out_of_fuel
map_pages_loop (suc fuel) v v_end p kernel_pml4 s =
    let rest =
      map_pages_loop fuel (add64 v pagesize) v_end (add64 p pagesize) kernel_pml4
        (map_one_page v p kernel_pml4 s) in
    if leb v v_end then rest else ok s

pub map_all_kernel_pages :
    (fuel v_addr_start v_addr_end p_addr_start kernel_pml4 : ℕ) → Pages → Run Pages
unfolding page_align
map_all_kernel_pages fuel v_addr_start v_addr_end p_addr_start kernel_pml4 s =
    map_pages_loop fuel (page_align v_addr_start) v_addr_end (page_align p_addr_start) kernel_pml4 s

-- The loop of `map_mem_to_pages`: the memory, the last structure and the number of pages.
pub list_all : (fuel end i temp last num_pages : ℕ) → Memory → Run (Memory × ℕ × ℕ)
unfolding store
list_all zero end i temp last num_pages m = out_of_fuel
list_all (suc fuel) end i temp last num_pages m =
    let m' = store (store m (temp + 16) i) temp (temp + sizeof_page) in
    let rest = list_all fuel end (add64 i pagesize) (temp + sizeof_page) temp (num_pages + 1) m' in
    if ltb i end then rest else ok (m, last, num_pages)

-- The loop of `create_free_list`; `free` says whether the first free page is behind. The page after
-- an allocated one is read, so there has to be one.
pub mark_pages : (fuel start : ℕ) → Bool → (temp head : ℕ) → Memory → Run (Memory × ℕ)
unfolding store
mark_pages zero start free temp head m = out_of_fuel
mark_pages (suc fuel) start true temp head m =
    let m' = store m (temp + 8) 0 in
    let rest = mark_pages fuel start true (m' temp) head m' in
    if temp == 0 then ok (m, head) else rest
mark_pages (suc fuel) start false temp head m =
    let m' = store m (temp + 8) allocated in
    let next = m' temp in
    let found = mark_pages fuel start true next next m' in
    let rest = mark_pages fuel start false next head m' in
    if temp == 0
    then ok (m, head)
    else (fault_if (next == 0) >> (if m' (next + 16) == start then found else rest))

pub create_free_list : (fuel free_list_start_address : ℕ) → Pages → Run Pages
create_free_list fuel free_list_start_address s =
    mark_pages fuel free_list_start_address false s.free_list s.free_list_head s.mem
    >>= λ (m, head). ok (record s { mem = m; free_list_head = head })

pub map_mem_to_pages : (fuel end physfree : ℕ) → Pages → Run Pages
unfolding store
map_mem_to_pages fuel end physfree s =
    list_all fuel end 0 physfree 0 0 s.mem >>= λ (m, last, num_pages).
    let length = pages_for (num_pages * sizeof_page % 2 ^ 64) in
    fault_if (last == 0)
    >> create_free_list fuel (add64 physfree (length * pagesize))
        (record s { mem = store m last 0; free_list = physfree; free_list_page_length = length })
