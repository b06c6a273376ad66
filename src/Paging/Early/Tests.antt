-- ===== src/Paging/Early/Tests.antt =====
-- The root table on a machine with two free pages, whose structures stand at 0x10_0000.
use sbunix_public.Base.{ℕ, ◌+◌, ◌*◌, ◌≡◌, arith, refl}
use sbunix_public.Memory.{Memory, store}
use sbunix_public.Paging.Address.{kernbase}
use sbunix_public.Paging.Early.{Early, create_kernel_pml4}
use sbunix_public.Paging.Early.Root.{create_kernel_pml4_lem}
use sbunix_public.Paging.Walk.Entries.{Refers}

abbrev list : Memory
unfolding store
list =
    store (store (store (store (λ _. 0) 0x10_0000 0x10_0018) 0x10_0010 0x20_0000) 0x10_0018 0)
      0x10_0028 0x20_1000

abbrev early : Early
early = record {
  pages = record {
    mem = list;
    free_list = 0x10_0000;
    free_list_head = 0x10_0000;
    free_list_head_kmalloc = 0;
    free_list_page_length = 0;
    free_list_total_pages = 2;
  };
  kernel_cr3 = 0;
  kernel_pml4_t = 0;
}

abbrev addr : ℕ → ℕ
addr j = 0x20_0000 + 0x1000 * j

create_kernel_pml4_example :
    let (kernel_pml4, t) = create_kernel_pml4 early in
    (kernel_pml4 ≡ addr 0 + kernbase)
    × (t.kernel_pml4_t ≡ addr 0 + kernbase)
    × (t.kernel_cr3 ≡ addr 0)
    × Refers t.pages.mem (addr 0 + 8 * 510) (addr 0)
unfolding store
create_kernel_pml4_example =
    create_kernel_pml4_lem early 0x10_0000 0 1 addr
      (record {
        pos = omega arith;
        small = omega arith;
        list = record {
          next = λ j h. ground arith;
          end = λ j h. ground arith;
          p_addr = λ j h. ground arith;
        };
        first = refl;
      })
      (record { aligned = omega arith; size = omega arith }) (omega arith)
