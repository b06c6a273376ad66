-- ===== src/Process/Program.antt =====
-- Test of sys/task.c on the machine of sys/paging.c: a program of one segment, in an archive with the
-- one file "b", becomes a process.
use sbunix_public.Base.{suc, suc, [], ℕ, Run, if◌then◌else◌}
use sbunix_public.Memory.{Memory, store}
use sbunix_public.Paging.FreeList.{get_next_free_page_kmalloc}
use sbunix_public.Paging.Walk.NewPml4.{create_new_user_pml4}
use sbunix_public.Paging.Walk.{set_cr3, kmalloc_top_virtual_address_user, kmalloc_user, Machine}
use sbunix_public.Schedule.{running, user}
use sbunix_public.Elf.{type_stack, heap, sizeof_mm, sizeof_vm_area, Elf64Phdr}
use sbunix_public.Process.{World, sizeof_pcb}
use sbunix_public.Process.Booted.{machine, paging, state}
use sbunix_public.Schedule.Queue.{Queue}
use sbunix_public.Elf.Tables.{has_magic}
use sbunix_public.Process.Exec.{seen}

-- The name at the end of the first page of the archive, the string "ELF" before it, and the image
-- with its program header in the second page.
abbrev image : Memory
unfolding store
image =
    store
      (store
        (store
          (store
            (store
              (store
                (store
                  (store
                    (store
                      (store (store (store (store (λ _. 0) 0xc010 69) 0xc011 76) 0xc012 70) 0xce00
                        98)
                      0xd000 0x7f)
                    0xd001 69)
                  0xd002 76)
                0xd003 70)
              0xd01a 0x40)
            0xd020 64)
          0xd038 1)
        0xd040 1)
      0xd052 0x40

abbrev bytes : Memory
unfolding store
bytes = store image 0xd069 0x10

abbrev world : World Machine
world = record {
  store = record {
    heap = machine;
    areas =
        λ _. record { vm_start = 7; vm_end = 7; vm_offset = 7; vm_next = 7; vm_type = type_stack };
    mms = λ _. record { mmap = 7; elf_head = 7; e_entry = 7 };
  };
  sched = record {
    pcb = λ _. record {
      kstack = λ _. 0;
      pstack = 0;
      pid = 0;
      rsp = 0;
      cr3 = 0;
      mm = 0;
      state = running;
      exit_status = 0;
      next = 0;
      e_entry = 0;
      time_remaining = 0;
      process_type = user;
    };
    ready_processes = 0x8000;
    sleeping_processes = 0;
    idle_process = 0;
    currently_running_process = 0;
    pid_count = 4;
    timer_ticks = 0;
    first_schedule = 0;
    rsp = 0;
    cr3 = 0;
    tss_rsp0 = 0;
    outs = [];
  };
  bytes = bytes;
}

abbrev start : ℕ
start = 0xffff_ffff_8020_0e00

abbrev elf : ℕ
elf = 0xffff_ffff_8020_0010

abbrev head : ℕ
head = 0xffff_ffff_8020_1000

-- The calls, one after the other.
abbrev mm : Run (ℕ × Machine)
mm = paging.kmalloc_user sizeof_mm machine

abbrev first : Run (ℕ × Machine)
first = paging.kmalloc_user sizeof_vm_area (state mm)

abbrev second : Run (ℕ × Machine)
second = paging.kmalloc_user sizeof_vm_area (state first)

abbrev third : Run (ℕ × Machine)
third = paging.kmalloc_user sizeof_vm_area (state second)

abbrev given : Run (ℕ × Machine)
given = paging.kmalloc_user sizeof_pcb (state third)

abbrev page : ℕ
page = 0x2_b000

abbrev tables : Run (ℕ × Machine)
tables = paging.create_new_user_pml4 page (paging.get_next_free_page_kmalloc (state given)).1

abbrev filed : Run (ℕ × Machine)
filed = paging.kmalloc_top_virtual_address_user 4096 0x40_0000 (paging.set_cr3 page (state tables))

abbrev between : Machine
between = paging.set_cr3 0x1000 (state filed)

abbrev stacked : Run (ℕ × Machine)
stacked =
    paging.kmalloc_top_virtual_address_user 4096 0xffff_fe00_0000_0000 (paging.set_cr3 page between)

abbrev back : Machine
back = paging.set_cr3 0x1000 (state stacked)

abbrev magic : ℕ
magic = if has_magic (seen paging world) head then 1 else 0

abbrev phdr : Elf64Phdr
phdr = record { p_type = 1; p_offset = 0; p_vaddr = 0x40_0000; p_memsz = 0x1000 }
