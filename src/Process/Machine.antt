-- ===== src/Process/Machine.antt =====
-- The paging of the kernel, sys/paging.c, as what the creation of processes uses.
use sbunix_public.Base.{refl, ℕ, Option}
use sbunix_public.Memory.{Memory}
use sbunix_public.Paging.FreeList.{get_next_free_page_kmalloc}
use sbunix_public.Paging.Walk.{Machine, set_cr3, kmalloc_user, kmalloc_top_virtual_address_user}
use sbunix_public.Paging.Walk.NewPml4.{create_new_user_pml4}
use sbunix_public.Process.{Paging}
use sbunix_public.Process.Areas.{HasCr3}

abbrev pub machine_paging :
    (translate : Memory → ℕ → ℕ → Option ℕ) (kernel_pml4_t : ℕ) → Paging Machine
machine_paging translate kernel_pml4_t = record {
  kmalloc_user = kmalloc_user translate;
  kmalloc_top_virtual_address_user = kmalloc_top_virtual_address_user translate;
  get_next_free_page_kmalloc =
      λ s. let r = get_next_free_page_kmalloc s.pages in (r.0, record s { pages = r.1 });
  create_new_user_pml4 = create_new_user_pml4 translate kernel_pml4_t;
  get_cr3 = λ s. s.cr3;
  set_cr3 = set_cr3;
  paging_user_stack_top = λ s. s.paging_user_stack_top;
  translated = λ s a. translate s.pages.mem s.cr3 a;
}

-- On this machine CR3 holds what is loaded into it.
pub machine_paging-HasCr3 :
    (translate : Memory → ℕ → ℕ → Option ℕ) (kernel_pml4_t : ℕ)
    → HasCr3 (machine_paging translate kernel_pml4_t)
unfolding set_cr3
machine_paging-HasCr3 translate kernel_pml4_t cr3 h = refl
