-- ===== src/Process/Booted.antt =====
-- Test of sys/task.c on the machine of sys/paging.c: a process with a segment, a stack and a heap.
-- PML4 entries 0, 510 and 511 of the kernel are for its heap, the tables themselves and the archive.
use sbunix_public.Base.{
  ◌∷◌, [], arith, ◌<◌, ==_iff, ap, false, true, Bool, ℕ, ◌+◌, ◌-◌, ◌*◌, ◌/◌, ◌%◌, ◌≡◌, refl, Run,
  ok, fault, out_of_fuel, ◌==◌, leb, ltb, ◌&&◌, if◌then◌else◌, some,
}
use sbunix_public.Memory.{Memory, store}
use sbunix_public.Paging.Address.{round_up, page_align, is_valid_page, kernbase}
use sbunix_public.Paging.FreeList.{get_next_free_page_kmalloc, pages_for}
use sbunix_public.Paging.Walk.NewPml4.{fill_pml4, create_new_user_pml4}
use sbunix_public.Paging.Walk.{
  set_cr3, kmalloc_top_virtual_address_user, pte_rec_addr, pgd_rec_addr, pdpe_rec_addr,
  pml4_rec_addr, set_word, load, set_pte, new_table, walk_pte, walk_pgd, walk_pdpe, walk_pml4,
  page_walk_user, finish_kmalloc, kmalloc_loop, kmalloc_user, Machine,
}
use sbunix_public.Paging.Walk.Mmu.{HasResult, walk_tables_page, step, walk_tables}
use mathlib.Core.Bool.{false≢true}
use sbunix_public.Schedule.{running, user}
use sbunix_public.Elf.{VmAreaStruct, type_file, type_stack, type_heap}
use sbunix_public.Process.Areas.{HasCr3, IsMade, Walks, file, stack, heap, area, end}
use sbunix_public.Process.Mapped.{stack_of}
use sbunix_public.Process.Create.{IsCreated, create_process_lem}
use sbunix_public.Process.{create_process, World, Paging, sizeof_pcb}
use sbunix_public.Process.Machine.{machine_paging, machine_paging-HasCr3}

-- The structures of the list at 0x10_0000.
abbrev pub list : Memory
list a =
    let j = (a - 0x10_0000) / 24 in
    let field = (a - 0x10_0000) % 24 in
    if leb 0x10_0000 a && ltb a 0x10_0300
    then (if field == 0
        then (if j == 31 then 0 else 0x10_0018 + 24 * j)
        else (if field == 16 then 0x2_0000 + 0x1000 * j else 0))
    else 0

abbrev pub memory : Memory
unfolding store
memory =
    store
      (store
        (store
          (store
            (store
              (store (store (store (store list 0xb008 0xd003) 0x1ff0 0x1003) 0x1000 0x6003) 0x6000
                0x7003)
              0x7010 0x8003)
            0x1ff8 0x9003)
          0x9ff0 0xa003)
        0xa008 0xb003)
      0xb000 0xc003

abbrev pub machine : Machine
machine = record {
  pages = record {
    mem = memory;
    free_list = 0x10_0000;
    free_list_head = 0x10_0000;
    free_list_head_kmalloc = kernbase + 0x10_0000;
    free_list_page_length = 0;
    free_list_total_pages = 32;
  };
  cr3 = 0x1000;
  top_virtual_address = 0x40_0000;
  paging_user_stack_top = 0xffff_fe00_0000_0000 + 0x1000 - 0x8;
}

abbrev pub paging : Paging Machine
paging = machine_paging walk_tables 0xffff_ff7f_bfdf_e000

-- The state behind a call, and whether it answered a number.
abbrev pub state : Run (ℕ × Machine) → Machine
state (ok r) = r.1
state fault = machine
state out_of_fuel = machine

abbrev pub answers : Run (ℕ × Machine) → ℕ → Bool
answers (ok r) n = r.0 == n
answers fault n = false
answers out_of_fuel n = false

pub answers-ok : (r : Run (ℕ × Machine)) (n : ℕ) → answers r n ≡ true → r ≡ ok (n, state r)
answers-ok (ok r) n e = ap (λ (a : ℕ). ok (a, r.1)) ((==_iff r.0 n).0 e)
answers-ok fault n e = absurd (false≢true e)
answers-ok out_of_fuel n e = absurd (false≢true e)

-- The calls of `create_process`, one after the other.
abbrev given : Run (ℕ × Machine)
given = paging.kmalloc_user sizeof_pcb machine

abbrev page : ℕ
page = 0x2_3000

abbrev tables : Run (ℕ × Machine)
tables = paging.create_new_user_pml4 page (paging.get_next_free_page_kmalloc (state given)).1

abbrev filed : Run (ℕ × Machine)
filed = paging.kmalloc_top_virtual_address_user 4096 0x40_0000 (paging.set_cr3 page (state tables))

abbrev between : Machine
between = paging.set_cr3 0x1000 (state filed)

abbrev stacked : Run (ℕ × Machine)
stacked =
    paging.kmalloc_top_virtual_address_user 4096 0xffff_fe00_0000_0000 (paging.set_cr3 page between)

abbrev back : Machine
back = paging.set_cr3 0x1000 (state stacked)

structure_given : given ≡ ok (0x40_0000, state given)
unfolding kmalloc_user kmalloc_loop finish_kmalloc page_walk_user walk_pml4 walk_pdpe walk_pgd
    walk_pte new_table set_pte load set_word pml4_rec_addr pdpe_rec_addr pgd_rec_addr pte_rec_addr
    get_next_free_page_kmalloc pages_for walk_tables is_valid_page step store
structure_given = answers-ok given 0x40_0000 refl

page_given : (paging.get_next_free_page_kmalloc (state given)).0 ≡ page
unfolding kmalloc_user kmalloc_loop finish_kmalloc page_walk_user walk_pml4 walk_pdpe walk_pgd
    walk_pte new_table set_pte load set_word pml4_rec_addr pdpe_rec_addr pgd_rec_addr pte_rec_addr
    get_next_free_page_kmalloc pages_for walk_tables is_valid_page step store
page_given = refl

tables_given : tables ≡ ok (0x40_3000, state tables)
unfolding kmalloc_user kmalloc_loop finish_kmalloc page_walk_user walk_pml4 walk_pdpe walk_pgd
    walk_pte new_table set_pte load set_word pml4_rec_addr pdpe_rec_addr pgd_rec_addr pte_rec_addr
    get_next_free_page_kmalloc pages_for walk_tables is_valid_page step store fill_pml4
    create_new_user_pml4
tables_given = answers-ok tables 0x40_3000 refl

same_cr3 : (state tables).cr3 ≡ 0x1000
unfolding kmalloc_user kmalloc_loop finish_kmalloc page_walk_user walk_pml4 walk_pdpe walk_pgd
    walk_pte new_table set_pte load set_word pml4_rec_addr pdpe_rec_addr pgd_rec_addr pte_rec_addr
    get_next_free_page_kmalloc pages_for walk_tables is_valid_page step store fill_pml4
    create_new_user_pml4
same_cr3 = refl

file_given : filed ≡ ok (0x40_0000, state filed)
unfolding kmalloc_user kmalloc_loop finish_kmalloc page_walk_user walk_pml4 walk_pdpe walk_pgd
    walk_pte new_table set_pte load set_word pml4_rec_addr pdpe_rec_addr pgd_rec_addr pte_rec_addr
    get_next_free_page_kmalloc pages_for walk_tables is_valid_page step store fill_pml4
    create_new_user_pml4 kmalloc_top_virtual_address_user set_cr3
file_given = answers-ok filed 0x40_0000 refl

file_cr3 : (state filed).cr3 ≡ page
unfolding kmalloc_user kmalloc_loop finish_kmalloc page_walk_user walk_pml4 walk_pdpe walk_pgd
    walk_pte new_table set_pte load set_word pml4_rec_addr pdpe_rec_addr pgd_rec_addr pte_rec_addr
    get_next_free_page_kmalloc pages_for walk_tables is_valid_page step store fill_pml4
    create_new_user_pml4 kmalloc_top_virtual_address_user set_cr3
file_cr3 = refl

pub paging-HasCr3 : HasCr3 paging
paging-HasCr3 = machine_paging-HasCr3 walk_tables 0xffff_ff7f_bfdf_e000

file_mapped : HasResult (walk_tables (state filed).pages.mem page 0x40_0000)
unfolding kmalloc_user kmalloc_loop finish_kmalloc page_walk_user walk_pml4 walk_pdpe walk_pgd
    walk_pte new_table set_pte load set_word pml4_rec_addr pdpe_rec_addr pgd_rec_addr pte_rec_addr
    get_next_free_page_kmalloc pages_for walk_tables is_valid_page step store fill_pml4
    create_new_user_pml4 kmalloc_top_virtual_address_user set_cr3
file_mapped = (0x2_4000, refl)

image_mapped : HasResult (walk_tables (state filed).pages.mem page 0xffff_ffff_8020_0000)
unfolding kmalloc_user kmalloc_loop finish_kmalloc page_walk_user walk_pml4 walk_pdpe walk_pgd
    walk_pte new_table set_pte load set_word pml4_rec_addr pdpe_rec_addr pgd_rec_addr pte_rec_addr
    get_next_free_page_kmalloc pages_for walk_tables is_valid_page step store fill_pml4
    create_new_user_pml4 kmalloc_top_virtual_address_user set_cr3
image_mapped = (0xc000, refl)

stack_top : between.paging_user_stack_top ≡ 0xffff_fe00_0000_0ff8
unfolding kmalloc_user kmalloc_loop finish_kmalloc page_walk_user walk_pml4 walk_pdpe walk_pgd
    walk_pte new_table set_pte load set_word pml4_rec_addr pdpe_rec_addr pgd_rec_addr pte_rec_addr
    get_next_free_page_kmalloc pages_for walk_tables is_valid_page step store fill_pml4
    create_new_user_pml4 kmalloc_top_virtual_address_user set_cr3
stack_top = refl

stack_given : stacked ≡ ok (0xffff_fe00_0000_0000, state stacked)
unfolding kmalloc_user kmalloc_loop finish_kmalloc page_walk_user walk_pml4 walk_pdpe walk_pgd
    walk_pte new_table set_pte load set_word pml4_rec_addr pdpe_rec_addr pgd_rec_addr pte_rec_addr
    get_next_free_page_kmalloc pages_for walk_tables is_valid_page step store fill_pml4
    create_new_user_pml4 kmalloc_top_virtual_address_user set_cr3
stack_given = answers-ok stacked 0xffff_fe00_0000_0000 refl

stack_mapped : paging.translated (state stacked) (0xffff_fe00_0000_0ff8 - 64 - 800) ≡ some 0x2_8c98
unfolding kmalloc_user kmalloc_loop finish_kmalloc page_walk_user walk_pml4 walk_pdpe walk_pgd
    walk_pte new_table set_pte load set_word pml4_rec_addr pdpe_rec_addr pgd_rec_addr pte_rec_addr
    get_next_free_page_kmalloc pages_for walk_tables is_valid_page step store fill_pml4
    create_new_user_pml4 kmalloc_top_virtual_address_user set_cr3
stack_mapped = refl

made : IsMade paging 0x40_0000 page machine (state tables)
made = record {
  given = state given;
  result = 0x40_3000;
  structure = structure_given;
  live = omega arith;
  page_given = page_given;
  tables = tables_given;
  cr3 = same_cr3;
}

-- An `mm_struct` at 0x5000 with a segment of less than a page, a stack and a heap.
abbrev areas : ℕ → VmAreaStruct
areas a =
    if a == 0x7000
    then record {
      vm_start = 0x40_0000;
      vm_end = 0x40_0f00;
      vm_offset = 0;
      vm_next = 0x7100;
      vm_type = type_file;
    }
    else (if a == 0x7100
        then record {
          vm_start = 0;
          vm_end = 0;
          vm_offset = 0;
          vm_next = 0x7200;
          vm_type = type_stack;
        }
        else record { vm_start = 0; vm_end = 0; vm_offset = 0; vm_next = 0; vm_type = type_heap })

abbrev loaded : World Machine
loaded = record {
  store = record {
    heap = machine;
    areas = areas;
    mms = λ _. record { mmap = 0x7000; elf_head = 0xffff_ffff_8020_0000; e_entry = 0x40_0010 };
  };
  sched = record {
    pcb = λ _. record {
      kstack = λ _. 0;
      pstack = 0;
      pid = 0;
      rsp = 0;
      cr3 = 0;
      mm = 0;
      state = running;
      exit_status = 0;
      next = 0;
      e_entry = 0;
      time_remaining = 0;
      process_type = user;
    };
    ready_processes = 0;
    sleeping_processes = 0;
    idle_process = 0;
    currently_running_process = 0;
    pid_count = 4;
    timer_ticks = 0;
    first_schedule = 0;
    rsp = 0;
    cr3 = 0;
    tss_rsp0 = 0;
    outs = [];
  };
  bytes = λ _. 7;
}

mapped_from :
    (start : ℕ)
    → start % 4096 ≡ 0
    → HasResult (walk_tables (state filed).pages.mem page start)
    → (i : ℕ) → i < 4096
    → (a : ℕ) × (paging.translated (state filed) (start + i) ≡ some a)
mapped_from start aligned at i lt =
    let all = walk_tables_page (state filed).pages.mem page start i aligned lt at in
    coe 1 0 (i'. (a : ℕ) × (walk_tables (state filed).pages.mem (file_cr3 i') (start + i) ≡ some a))
      all

walk :
    (old : ℕ)
    → old ≡ 0x1000
    → Walks paging 0xffff_fe00_0000_0ff8 page old 0xffff_ffff_8020_0000 areas 0x7000
        (0x7000 ∷ 0x7100 ∷ 0x7200 ∷ [])
        (state tables)
        back
unfolding page_align round_up set_cr3
walk old e =
    coe 1 0
      (i.
        Walks paging 0xffff_fe00_0000_0ff8 page (e i) 0xffff_ffff_8020_0000 areas 0x7000
          (0x7000 ∷ 0x7100 ∷ 0x7200 ∷ []) (state tables) back)
      (area 0x7000 (0x7100 ∷ 0x7200 ∷ []) (state tables) between back (omega arith)
        (file 0x40_0000 4096 0xffff_ffff_8020_0000 (state filed) refl refl refl refl (omega arith)
          (omega arith) (omega arith) file_given (mapped_from 0x40_0000 refl file_mapped)
          (mapped_from 0xffff_ffff_8020_0000 refl image_mapped) refl)
        (area 0x7100 (0x7200 ∷ []) between back back (omega arith)
          (stack 0xffff_fe00_0000_0000 0x2_8c98 (state stacked) refl stack_top stack_given
            stack_mapped refl)
          (area 0x7200 [] back back back (omega arith) (heap refl refl) (end back back refl))))

create_process_lem_example :
    (w' : World Machine) × (create_process paging 4 0x5000 loaded ≡ ok (0x40_0000, w'))
    × (w'.store.heap ≡ back)
    × IsCreated paging 0x5000 0x40_0000 page
        (stack_of 0xffff_fe00_0000_0ff8 areas (0x7000 ∷ 0x7100 ∷ 0x7200 ∷ []) 0)
        loaded
        w'
create_process_lem_example =
    create_process_lem paging 0xffff_fe00_0000_0ff8 (omega arith) (omega arith) 4 0x5000 0x40_0000
      page (0x7000 ∷ 0x7100 ∷ 0x7200 ∷ []) loaded (state tables) back paging-HasCr3 (omega arith)
      made (walk (paging.get_cr3 (state tables)) same_cr3) (omega arith)
