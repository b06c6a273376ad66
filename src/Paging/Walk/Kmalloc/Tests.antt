-- ===== src/Paging/Walk/Kmalloc/Tests.antt =====
-- A machine with four free pages, and tables for 0x40_0000 that hold no page.

use sbunix_public.Base.{ℕ, ◌+◌, ◌*◌, ◌≡◌, ◌⊎◌, inl, inr, arith, some, refl, ok}
use sbunix_public.Memory.{Memory, store}
use sbunix_public.Paging.Address.{is_valid_page, kernbase}
use sbunix_public.Paging.FreeList.Reserve.{pages_for_least}
use sbunix_public.Paging.Walk.{
  Machine, kmalloc, kmalloc_user, kmalloc_top_virtual_address_kernel,
  kmalloc_top_virtual_address_user,
}
use sbunix_public.Paging.Walk.Mmu.{walk_tables, walk_tables-IsX86}
use sbunix_public.Paging.Walk.Level.{IsReady}
use sbunix_public.Paging.Walk.Maps.{HasPt, no_pdpt}
use sbunix_public.Paging.Walk.Kmalloc.{kmalloc_one_page}
use sbunix_public.Paging.Walk.Kmalloc.Loop.{IsFree}
use sbunix_public.Paging.Walk.Kmalloc.Pages.{IsAnswer, IsAnswerAt, kmalloc_pages, kmalloc_pages_at}

abbrev list : Memory
unfolding store
list =
    store
      (store
        (store
          (store
            (store (store (store (λ _. 0) 0x10_0000 0x10_0018) 0x10_0010 0x2000) 0x10_0018
              0x10_0030)
            0x10_0028 0x3000)
          0x10_0030 0x10_0048)
        0x10_0040 0x4000)
      0x10_0058 0x5000

abbrev memory : Memory
unfolding store
memory = store (store (store (store list 0x1ff0 0x1003) 0x1000 0x6003) 0x6000 0x7003) 0x7010 0x8003

abbrev machine : ℕ → Machine
machine top = record {
  pages = record {
    mem = memory;
    free_list = 0x10_0000;
    free_list_head = 0x10_0000;
    free_list_head_kmalloc = kernbase + 0x10_0000;
    free_list_page_length = 0;
    free_list_total_pages = 4;
  };
  cr3 = 0x1000;
  top_virtual_address = top;
  paging_user_stack_top = 0;
}

abbrev addr : ℕ → ℕ
addr j = 0x2000 + 0x1000 * j

abbrev InUse : ℕ → Type 0
InUse t = (t ≡ 0x1000) ⊎ ((t ≡ 0x6000) ⊎ ((t ≡ 0x7000) ⊎ (t ≡ 0x8000)))

ready : (top : ℕ) → IsReady (machine top) InUse 0x10_0000 addr 0 4
unfolding store
ready top = record {
  pool = record {
    pool = record {
      pos = omega arith;
      small = omega arith;
      list = record {
        next = λ j h. ground arith;
        end = λ j h. ground arith;
        p_addr = λ j h. ground arith;
      };
      first = refl;
    };
    head = refl;
  };
  self = record { entry = omega arith; to = refl };
  root = inl refl;
  tables = λ t u. omega arith;
  spare = λ j lo hi. omega arith;
  fresh = λ j t lo hi u. omega arith;
  distinct = λ i j lo mid hi. omega arith;
}

tables : HasPt (machine 0x40_0000) InUse 0x40_0000 0x6000 0x7000 0x8000
unfolding store
tables = record {
  above = record {
    above = record {
      inside = inr (inl refl);
      entry = record { entry = omega arith; to = refl };
      apart = omega arith;
    };
    inside = inr (inr (inl refl));
    entry = record { entry = omega arith; to = refl };
    apart = omega arith;
    apart' = omega arith;
  };
  inside = inr (inr (inr refl));
  entry = record { entry = omega arith; to = refl };
  apart = omega arith;
  apart' = omega arith;
  apart'' = omega arith;
}

free : IsFree (machine 0x40_0000) 0 0x8000 3
unfolding store is_valid_page
free = record { room = omega arith; free = λ j lt. ground arith }

kmalloc_one_page_example :
    ((t : Machine) × (kmalloc walk_tables 100 (machine 0x80_0000_0000) ≡ ok (0x80_0000_0000, t))
      × (t.cr3 ≡ 0x1000)
      × (walk_tables t.pages.mem t.cr3 0x80_0000_0000 ≡ some 0x2000)
      × (t.top_virtual_address ≡ 0x80_0000_1000))
    × ((t : Machine) × (kmalloc_top_virtual_address_user walk_tables 100 0x80_0000_0000
            (machine 0x80_0000_0000)
          ≡ ok (0x80_0000_0000, t))
        × (t.cr3 ≡ 0x1000)
        × (walk_tables t.pages.mem t.cr3 0x80_0000_0000 ≡ some 0x2000))
unfolding store is_valid_page
kmalloc_one_page_example =
    kmalloc_one_page walk_tables (machine 0x80_0000_0000) InUse 0x10_0000 0 0 addr 100
      walk_tables-IsX86 (ready 0x80_0000_0000) (omega arith) (omega arith) (omega arith)
      (omega arith) (no_pdpt (omega arith))

kmalloc_pages_example :
    IsAnswer walk_tables
      (machine 0x40_0000)
      addr
      0
      (kmalloc walk_tables 5000 (machine 0x40_0000))
      0x40_0000
      2
    × IsAnswer walk_tables
        (machine 0x40_0000)
        addr
        0
        (kmalloc_user walk_tables 5000 (machine 0x40_0000))
        0x40_0000
        3
kmalloc_pages_example =
    kmalloc_pages walk_tables (machine 0x40_0000) InUse 0x10_0000 0 1 2 5000 addr 0x6000 0x7000
      0x8000 walk_tables-IsX86 (omega (arith, pages_for_least 5000)) (ready 0x40_0000) (omega arith)
      tables free (λ j lt. omega arith) (omega arith)

kmalloc_pages_at_example :
    IsAnswerAt walk_tables
      (machine 0x40_0000)
      addr
      0
      (kmalloc_top_virtual_address_kernel walk_tables 9000 0x40_0000 (machine 0x40_0000))
      0x40_0000
      3
    × IsAnswerAt walk_tables
        (machine 0x40_0000)
        addr
        0
        (kmalloc_top_virtual_address_user walk_tables 9000 0x40_0000 (machine 0x40_0000))
        0x40_0000
        3
kmalloc_pages_at_example =
    kmalloc_pages_at walk_tables (machine 0x40_0000) InUse 0x10_0000 0 1 3 9000 0x40_0000 addr
      0x6000 0x7000 0x8000 walk_tables-IsX86 (omega (arith, pages_for_least 9000)) (ready 0x40_0000)
      (omega arith) tables free (λ j lt. omega arith) (omega arith) (omega arith)
