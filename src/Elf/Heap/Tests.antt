-- ===== src/Elf/Heap/Tests.antt =====
-- The image of the tests and a machine with eight free pages, for one segment.

use sbunix_public.Base.{
  ℕ, suc, ◌+◌, ◌-◌, ◌*◌, ◌/◌, ◌%◌, ◌≡◌, ◌⊎◌, inl, inr, arith, refl, ok, ◌==◌, leb, ltb, ◌&&◌,
  if◌then◌else◌, length,
}
use sbunix_public.Memory.{Memory, store}
use sbunix_public.Paging.Address.{is_valid_page, kernbase}
use sbunix_public.Paging.Walk.{Machine, kmalloc_user}
use sbunix_public.Paging.Walk.Mmu.{walk_tables, walk_tables-IsX86}
use sbunix_public.Paging.Walk.Level.{IsReady}
use sbunix_public.Paging.Walk.Maps.{HasPt}
use sbunix_public.Paging.Walk.Kmalloc.Heap.{IsHeap}
use sbunix_public.Elf.{Store, read_bytes, read_ehdr, read_phdr, phdr_at, type_stack, load_elf_vmas}
use sbunix_public.Elf.Tables.{segments, load_headers}
use sbunix_public.Elf.Areas.{IsListed}
use sbunix_public.Elf.Load.{purposes}
use sbunix_public.Elf.Heap.{addresses, load_elf_vmas_kmalloc}
use sbunix_public.Elf.Tests.{image}

abbrev addr : ℕ → ℕ
addr j = 0x2_0000 + 0x1000 * j

-- The structures of the list at 0x10_0000.
abbrev list : Memory
list a =
    let j = (a - 0x10_0000) / 24 in
    let field = (a - 0x10_0000) % 24 in
    if leb 0x10_0000 a && ltb a 0x10_00c0
    then (if field == 0
        then (if j == 7 then 0 else 0x10_0018 + 24 * j)
        else (if field == 16 then addr j else 0))
    else 0

abbrev memory : Memory
unfolding store
memory = store (store (store (store list 0x1ff0 0x1003) 0x1000 0x6003) 0x6000 0x7003) 0x7010 0x8003

abbrev machine : Machine
machine = record {
  pages = record {
    mem = memory;
    free_list = 0x10_0000;
    free_list_head = 0x10_0000;
    free_list_head_kmalloc = kernbase + 0x10_0000;
    free_list_page_length = 0;
    free_list_total_pages = 8;
  };
  cr3 = 0x1000;
  top_virtual_address = 0x40_0000;
  paging_user_stack_top = 0;
}

abbrev InUse : ℕ → Type 0
InUse t = (t ≡ 0x1000) ⊎ ((t ≡ 0x6000) ⊎ ((t ≡ 0x7000) ⊎ (t ≡ 0x8000)))

ready : IsReady machine InUse 0x10_0000 addr 0 8
unfolding store
ready = record {
  pool = record {
    pool = record {
      pos = omega arith;
      small = omega arith;
      list = record {
        next = λ j h. ground arith;
        end = λ j h. ground arith;
        p_addr = λ j h. ground arith;
      };
      first = refl;
    };
    head = refl;
  };
  self = record { entry = omega arith; to = refl };
  root = inl refl;
  tables = λ t u. omega arith;
  spare = λ j lo hi. omega arith;
  fresh = λ j t lo hi u. omega arith;
  distinct = λ i j lo mid hi. omega arith;
}

tables : HasPt machine InUse 0x40_0000 0x6000 0x7000 0x8000
unfolding store
tables = record {
  above = record {
    above = record {
      inside = inr (inl refl);
      entry = record { entry = omega arith; to = refl };
      apart = omega arith;
    };
    inside = inr (inr (inl refl));
    entry = record { entry = omega arith; to = refl };
    apart = omega arith;
    apart' = omega arith;
  };
  inside = inr (inr (inr refl));
  entry = record { entry = omega arith; to = refl };
  apart = omega arith;
  apart' = omega arith;
  apart'' = omega arith;
}

heap : IsHeap 0x10_0000 0 addr 0x6000 0x7000 0x8000 machine 4
unfolding store is_valid_page
heap = record {
  used = InUse;
  k = 0;
  i = 0;
  ready = ready;
  at = λ some. record { has = tables; index = refl; other = omega arith };
  free = record { room = omega arith; free = λ j lt. ground arith };
  live = λ j lt. omega arith;
  small = omega arith;
  pos = omega arith;
}

abbrev empty : Store Machine
empty = record {
  heap = machine;
  areas =
      λ _. record { vm_start = 7; vm_end = 7; vm_offset = 7; vm_next = 7; vm_type = type_stack };
  mms = λ _. record { mmap = 7; elf_head = 7; e_entry = 7 };
}

one_segment : 1 ≡ length (segments image 0x1000)
unfolding store segments load_headers read_ehdr phdr_at read_phdr read_bytes
one_segment = refl

load_elf_vmas_kmalloc_example :
    (t : Store Machine) × (load_elf_vmas (kmalloc_user walk_tables) image 0x1000 empty
      ≡ ok (0x40_0000, t))
    × IsListed t.areas
        (t.mms 0x40_0000).mmap
        (addresses 0x40_2000 (suc (suc (length (segments image 0x1000)))))
        (purposes image 0x1000)
    × ((t.mms 0x40_0000).e_entry ≡ (read_ehdr image 0x1000).e_entry)
    × ((t.mms 0x40_0000).elf_head ≡ 0x1000)
    × (t.heap.top_virtual_address
        ≡ 0x40_0000 + 8192 * (1 + suc (suc (length (segments image 0x1000)))))
load_elf_vmas_kmalloc_example =
    load_elf_vmas_kmalloc walk_tables 0x10_0000 0 addr 0x6000 0x7000 0x8000 image 0x1000 empty
      walk_tables-IsX86
      (coe 0 1
        (i. IsHeap 0x10_0000 0 addr 0x6000 0x7000 0x8000 machine (suc (suc (suc (one_segment i)))))
        heap)
