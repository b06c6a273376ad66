-- ===== src/Lib.antt =====
-- SBUnix: a small x86-64 kernel (sys/) with its C library (libc/) and a shell (bin/sbush).
--
-- The loader enters `start` of sys/main.c, which reads the memory map, builds the list of physical
-- pages, maps the kernel, and starts processes whose ELF images lie in an in-memory tar archive. The
-- timer interrupt switches between them.
--
-- Base: tests on numbers, runs that can fault or use up their fuel, and bit fields.
-- Memory: sys/mm.c. Memory is a function, from addresses to bytes for `memset`, and from addresses
--   to 8-byte words for the structures of sys/paging.c.
-- Boot: `start` of sys/main.c as far as it reads the memory map and builds the list of pages.
-- Paging: sys/paging.c and include/sys/paging.h. Paging/Address has the address arithmetic.
--   Paging/FreeList has the list of physical pages: `append_free_list` and `set_free_list_head`, which
--   `start` calls in this order, and `get_next_free_page`, and then its counterpart
--   `get_next_free_page_kmalloc` on the kernel's own addresses. Paging/Walk has the walks that enter a
--   page into the page tables and the `kmalloc` family, which takes its pages from the list.
--   Paging/Early has what `start` maps before.
--   Paging/Walk/Kmalloc has the requests for one page, Paging/Walk/Kmalloc/Pages those for
--   several, and Paging/Walk/Kmalloc/Heap one request after the other.
-- Schedule: sys/schedule.c, include/sys/task.h and the scheduling half of sys/isr.c
--   (`get_next_ready_process`, `schedule_old_process`, `generate_timer`). Schedule/Fair follows the
--   timer over many interrupts.
-- Isr: the handlers of sys/isr.c for system calls, exceptions and device interrupts.
-- Idt: sys/idt.c, the interrupt descriptor table.
-- Elf: sys/elf64.c: Elf/Tables has the tests on an image, and Elf/Areas and Elf/Load the list of areas
--   that `load_elf_vmas` makes. The allocator is an argument there, and Elf/Heap
--   puts `kmalloc_user` in its place.
-- Tarfs: sys/tarfs.c, the table of the files in the archive, the search for an image, and the files
--   opened from it (Tarfs/Open). Names are
--   lists of bytes there.
-- Process: the creation of processes in sys/task.c: `create_process` and `exec_new_binary`, which go
--   from a file of the archive to a process in the ready queue. Paging is an argument there, the
--   record `Paging`, and a theorem asks of it what the calls of the run at hand answer (Process/Areas
--   has these conditions, the data types `Wants` and `Walks`); Process/Machine puts sys/paging.c in
--   its place, and Process/Booted and Process/Program meet the conditions there. Process/Segment has
--   the pages of a segment, Process/Create the list of areas, and Process/Exec the whole.
-- Keyboard: sys/keyboard.c, the scan codes, the line buffer that the interrupts fill, and
--   `getstring` (Keyboard/Getstring).
-- Print: sys/kprintf.c: the number printers, the screen with its scrolling (Print/Screen), and the
--   formats of `kprintf` (Print/Format).
-- Libc: `printf`, `puts` and `putchar` of libc/, up to the system call that takes the buffer.
-- Math: sys/math.c, of which only `oct2bin` is used.
-- Strings: sys/string.c, which libc/string.c repeats.
--
-- Numbers are natural numbers; 64-bit arithmetic is written with its remainder, and a C int that
-- overflows in sys/math.c and in the printing of numbers wraps round. The screen of sys/kprintf.c is
-- taken to be mapped memory without an end. Loops run on fuel:
-- the loops of `append_free_list` get one round more than there are pages up to the end of the
-- region, and the walks to the end of a list take their fuel as an argument, for which the theorems
-- ask more than the list is long. A fault is the use of a NULL pointer or of an address that the
-- processor does not translate; in Keyboard, Tarfs and Libc it is a write or a
-- read outside an array or a string constant (as far as the linker leaves no room behind it), and in Print and Libc an argument that the format does not fit.
--
-- The processor is a parameter: `translate` stands for its address translation, and `IsX86` in
-- Paging/Walk/Mmu is what the manual says of it. A context switch is the load of CR3 and of the stack
-- pointer; the other registers, which the interrupt stubs of sys/*.s keep on the stack, and the
-- messages that the parts print are not modelled.
--
-- Not modelled: the disk controller of include/sys/ahci.h, the threads and the device probing in
-- sys/main.c, the shell, the system call instructions of libc/, the tables of sys/gdt.c, and what
-- sys/task.c does in assembly.
pub mod Base
pub mod Boot
pub mod Elf
pub mod Idt
pub mod Isr
pub mod Keyboard
pub mod Libc
pub mod Math
pub mod Memory
pub mod Paging
pub mod Print
pub mod Process
pub mod Schedule
pub mod Strings
pub mod Tarfs
