-- ===== src/Paging/Walk/Tests.antt =====
-- A small machine: the PML4 at 0x1000, three free pages, and their structures at 0x10_0000.

use sbunix_public.Base.{ℕ, ◌+◌, ◌*◌, ◌%◌, ◌≡◌, ◌⊎◌, inl, inr, arith, some, refl, ok}
use sbunix_public.Memory.{Memory, store}
use sbunix_public.Paging.Address.{is_valid_page, kernbase}
use sbunix_public.Paging.FreeList.{Pages}
use sbunix_public.Paging.Walk.{Machine, page_walk, page_walk_user}
use sbunix_public.Paging.Walk.Mmu.{walk_tables, walk_tables-IsX86}
use sbunix_public.Paging.Walk.Level.{IsReady}
use sbunix_public.Paging.Walk.Maps.{HasPt, no_pdpt}
use sbunix_public.Paging.Walk.PageWalk.{page_walk_maps, page_walk_occupied}

abbrev list : Memory
unfolding store
list =
    store
      (store
        (store
          (store (store (store (λ _. 0) 0x10_0000 0x10_0018) 0x10_0010 0x2000) 0x10_0018 0x10_0030)
          0x10_0028 0x3000)
        0x10_0030 0)
      0x10_0040 0x4000

abbrev memory : Memory
unfolding store
memory = store list 0x1ff0 0x1003

abbrev pages : Memory → Pages
pages m = record {
  mem = m;
  free_list = 0x10_0000;
  free_list_head = 0x10_0000;
  free_list_head_kmalloc = kernbase + 0x10_0000;
  free_list_page_length = 0;
  free_list_total_pages = 3;
}

abbrev machine : Memory → Machine
machine m = record {
  pages = pages m;
  cr3 = 0x1000;
  top_virtual_address = 0xffff_ffff_8040_0000;
  paging_user_stack_top = 0;
}

abbrev addr : ℕ → ℕ
addr j = 0x2000 + 0x1000 * j

abbrev Used : ℕ → Type 0
Used t = t ≡ 0x1000

ready : IsReady (machine memory) Used 0x10_0000 addr 0 3
unfolding store
ready = record {
  pool = record {
    pool = record {
      pos = omega arith;
      small = omega arith;
      list = record {
        next = λ j h. ground arith;
        end = λ j h. ground arith;
        p_addr = λ j h. ground arith;
      };
      first = refl;
    };
    head = refl;
  };
  self = record { entry = omega arith; to = refl };
  root = refl;
  tables = λ t u. omega arith;
  spare = λ j lo hi. omega arith;
  fresh = λ j t lo hi u. omega arith;
  distinct = λ i j lo mid hi. omega arith;
}

page_walk_maps_example :
    ((t : Machine) × (page_walk walk_tables 0x5000 0x40_0123 (machine memory) ≡ ok (1, t))
      × (t.cr3 ≡ 0x1000)
      × (walk_tables t.pages.mem t.cr3 0x40_0123 ≡ some (0x5000 + 0x40_0123 % 4096)))
    × ((t : Machine) × (page_walk_user walk_tables 0x5000 0x40_0123 (machine memory) ≡ ok (1, t))
        × (t.cr3 ≡ 0x1000)
        × (walk_tables t.pages.mem t.cr3 0x40_0123 ≡ some (0x5000 + 0x40_0123 % 4096)))
unfolding store is_valid_page
page_walk_maps_example =
    page_walk_maps walk_tables 0x5000 0x40_0123 (machine memory) Used 0x10_0000 0 0 addr
      walk_tables-IsX86 (omega arith) (omega arith) ready (no_pdpt (omega arith))

-- The same machine with the tables for 0x40_0000 and a page in them.
abbrev mapped : Memory
unfolding store
mapped =
    store (store (store (store memory 0x1000 0x6003) 0x6000 0x7003) 0x7010 0x8003) 0x8000 0x5003

abbrev InUse : ℕ → Type 0
InUse t = (t ≡ 0x1000) ⊎ ((t ≡ 0x6000) ⊎ ((t ≡ 0x7000) ⊎ (t ≡ 0x8000)))

mapped-IsReady : IsReady (machine mapped) InUse 0x10_0000 addr 0 3
unfolding store
mapped-IsReady = record {
  pool = record {
    pool = record {
      pos = omega arith;
      small = omega arith;
      list = record {
        next = λ j h. ground arith;
        end = λ j h. ground arith;
        p_addr = λ j h. ground arith;
      };
      first = refl;
    };
    head = refl;
  };
  self = record { entry = omega arith; to = refl };
  root = inl refl;
  tables = λ t u. omega arith;
  spare = λ j lo hi. omega arith;
  fresh = λ j t lo hi u. omega arith;
  distinct = λ i j lo mid hi. omega arith;
}

abbrev MappedTables : Type 0
MappedTables = HasPt (machine mapped) InUse 0x40_0123 0x6000 0x7000 0x8000

page_walk_occupied_example :
    (page_walk walk_tables 0x9000 0x40_0123 (machine mapped) ≡ ok (0, machine mapped))
    × (page_walk_user walk_tables 0x9000 0x40_0123 (machine mapped) ≡ ok (0, machine mapped))
unfolding store is_valid_page
page_walk_occupied_example =
    page_walk_occupied walk_tables 0x9000 0x40_0123 (machine mapped) InUse 0x10_0000 0 3 addr
      walk_tables-IsX86 mapped-IsReady 0x6000 0x7000 0x8000
      (record {
        above = record {
          above = record {
            inside = inr (inl refl);
            entry = record { entry = omega arith; to = refl };
            apart = omega arith;
          };
          inside = inr (inr (inl refl));
          entry = record { entry = omega arith; to = refl };
          apart = omega arith;
          apart' = omega arith;
        };
        inside = inr (inr (inr refl));
        entry = record { entry = omega arith; to = refl };
        apart = omega arith;
        apart' = omega arith;
        apart'' = omega arith;
      })
      refl
