-- ===== src/Paging/Early/Root.antt =====
-- `create_kernel_pml4` of sys/paging.c: the root of the kernel's page tables.

use sbunix_public.Base.{ℕ, suc, ◌+◌, ◌*◌, ◌-◌, ◌^◌, ◌<◌, ◌≡◌, arith, refl, ap, ◌∙◌}
use sbunix_public.Memory.{add64}
use sbunix_public.Paging.Address.{kernbase, behind}
use sbunix_public.Paging.FreeList.{get_next_free_page}
use sbunix_public.Paging.FreeList.Take.{IsPool, get_next_free_page_step}
use sbunix_public.Paging.Early.{Early, create_kernel_pml4, write_entry}
use sbunix_public.Paging.Walk.Entries.{IsTable, IsFlags, Refers, Refers-store_self}

-- `create_kernel_pml4` takes the next page for the table, remembers its physical address, answers its
-- address in the kernel, and makes entry 510 refer to the table itself, which is the slot that the
-- later walks go through.
pub create_kernel_pml4_lem :
    (s : Early) (base k left : ℕ) (addr : ℕ → ℕ)
    → IsPool s.pages.mem s.pages.free_list_head base addr k (suc left)
    → IsTable (addr k)
    → addr k < 2 ^ 31 - 4096
    → let (kernel_pml4, t) = create_kernel_pml4 s in
      (kernel_pml4 ≡ addr k + kernbase)
      × (t.kernel_pml4_t ≡ addr k + kernbase)
      × (t.kernel_cr3 ≡ addr k)
      × Refers t.pages.mem (addr k + 8 * 510) (addr k)
unfolding create_kernel_pml4 write_entry
create_kernel_pml4_lem s base k left addr pool table low =
    let (page, rest) = get_next_free_page_step s.pages base k left addr pool in
    let a = addr k in
    let m = (get_next_free_page s.pages).1.mem in
    let root : add64 a kernbase ≡ a + kernbase = omega arith in
    let slot : behind (add64 (add64 a kernbase) (8 * 510)) ≡ a + 8 * 510 = ground arith in
    let kernel : add64 (get_next_free_page s.pages).0 kernbase ≡ a + kernbase =
      ap (λ (t : ℕ). add64 t kernbase) page ∙ root in
    let flags : IsFlags 3 = record { valid = refl; low = omega arith } in
    (kernel, kernel, page, rw (page, slot) (Refers-store_self m (a + 8 * 510) a 3 table flags))
