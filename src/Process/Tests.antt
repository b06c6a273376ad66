-- ===== src/Process/Tests.antt =====
-- The pages of a segment. Paging hands out addresses one after the other here, and every address is
-- mapped to itself; the processes on the machine of sys/paging.c are in Process/Booted and
-- Process/Program.
use sbunix_public.Base.{ℕ, ◌+◌, ◌≡◌, refl, arith, ok, [], some, if◌then◌else◌, ◌==◌}
use sbunix_public.Paging.Address.{page_align, round_up}
use sbunix_public.Memory.{Memory, store}
use sbunix_public.Schedule.{Pcb, running, user}
use sbunix_public.Elf.{type_file, type_stack}
use sbunix_public.Process.{Paging, World, map_file}
use sbunix_public.Process.Segment.{IsCopied, map_file_lem}

abbrev toy : Paging (ℕ × ℕ)
toy = record {
  kmalloc_user = λ size h. ok (h.0, (h.0 + 8192, h.1));
  kmalloc_top_virtual_address_user = λ size top h. ok (top, h);
  get_next_free_page_kmalloc = λ h. (h.0, (h.0 + 4096, h.1));
  create_new_user_pml4 = λ p h. ok (1, h);
  get_cr3 = λ h. h.1;
  set_cr3 = λ cr3 h. (h.0, cr3);
  paging_user_stack_top = λ h. 0x7f_fff8;
  translated = λ h a. some a;
}

-- The name at 0xe00, the string "ELF" at 16, the image at 0x1000 and its program header behind it.
abbrev program : Memory
unfolding store
program =
    store
      (store
        (store
          (store
            (store
              (store
                (store
                  (store (store (store (store (store (λ _. 0) 16 69) 17 76) 18 70) 0xe00 98) 0x1000
                    0x7f)
                  0x1001 69)
                0x1002 76)
              0x1003 70)
            0x101a 0x40)
          0x1020 64)
        0x1038 1)
      0x1040 1

abbrev image : Memory
unfolding store
image = store (store (store program 0x1049 0x10) 0x1052 0x40) 0x1069 0x20

abbrev no_process : Pcb
no_process = record {
  kstack = λ _. 0;
  pstack = 0;
  pid = 0;
  rsp = 0;
  cr3 = 0;
  mm = 0;
  state = running;
  exit_status = 0;
  next = 0;
  e_entry = 0;
  time_remaining = 0;
  process_type = user;
}

abbrev world : World (ℕ × ℕ)
world = record {
  store = record {
    heap = (0x10_0000, 0x9000);
    areas =
        λ _. record { vm_start = 7; vm_end = 7; vm_offset = 7; vm_next = 7; vm_type = type_stack };
    mms = λ _. record { mmap = 7; elf_head = 7; e_entry = 7 };
  };
  sched = record {
    pcb = λ _. no_process;
    ready_processes = 0x8000;
    sleeping_processes = 0;
    idle_process = 0;
    currently_running_process = 0;
    pid_count = 4;
    timer_ticks = 0;
    first_schedule = 0;
    rsp = 0;
    cr3 = 0;
    tss_rsp0 = 0;
    outs = [];
  };
  bytes = image;
}

-- An `mm_struct` at 0x5000 with a segment of two pages at 0x6000 and a stack at 0x7000.
abbrev loaded : World (ℕ × ℕ)
loaded = record world {
  store = record {
    heap = (0x10_0000, 0x9000);
    areas = λ a.
        if a == 0x6000
        then record {
          vm_start = 0x40_0010;
          vm_end = 0x40_1010;
          vm_offset = 0x200;
          vm_next = 0x7000;
          vm_type = type_file;
        }
        else record { vm_start = 0; vm_end = 0; vm_offset = 0; vm_next = 0; vm_type = type_stack };
    mms = λ _. record { mmap = 0x6000; elf_head = 0x1000; e_entry = 0x40_0010 };
  };
}

map_file_lem_example :
    (m : Memory) × (map_file toy 0xa000 0x9000 0x1000 0x6000 loaded
      ≡ ok (record loaded {
        store = record (loaded.store) { heap = (0x10_0000, 0x9000) };
        bytes = m;
      }))
    × IsCopied toy 0x2000 (λ i. 0x40_0000 + i) (λ i. 0x2000 + i) image m
unfolding page_align round_up
map_file_lem_example =
    map_file_lem toy 0xa000 0x9000 0x1000 0x6000 0x2000 0x40_0000 0x2000 loaded (0x10_0000, 0xa000)
      (λ i. 0x40_0000 + i) (λ i. 0x2000 + i) refl refl refl refl (omega arith) (omega arith)
      (omega arith) (λ i lt. refl) (λ i lt. refl) (λ i j lt lt' e. omega (arith, e))
      (λ i j lt lt'. omega arith)
