-- ===== src/Process/Exec.antt =====
-- `exec_new_binary` of sys/task.c: a file of the archive becomes a process in the ready queue.
pub mod Starts
pub mod Schedules
use sbunix_public.Base.{
  ℕ, zero, suc, ◌+◌, Run, ok, fault, out_of_fuel, ◌>>=◌, ◌==◌, if◌then◌else◌, Option, none, some,
  List,
}
use sbunix_public.Memory.{Memory}
use sbunix_public.Schedule.{Sched, schedule_user_process}
use sbunix_public.Elf.{VmAreaStruct, Store, validate_elf_header, check_elf_loadable, load_elf_vmas}
use sbunix_public.Tarfs.{get_elf}
use sbunix_public.Process.{Paging, World, create_process}

-- The loop that counts the areas.
unfoldable pub count_areas : ℕ → (ℕ → VmAreaStruct) → (temp count : ℕ) → Run ℕ
count_areas zero f temp count = out_of_fuel
count_areas (suc fuel) f temp count =
    let rest = count_areas fuel f (f temp).vm_next (count + 1) in
    if temp == 0 then ok count else rest

module _ {S : Type 0} (paging : Paging S) where
  -- The bytes by their virtual addresses, where the archive is a part of the kernel and is mapped.
  unfoldable pub seen : World S → Memory
  seen w a = elim (paging.translated w.store.heap a) [ none ↦ 0 | some p ↦ w.bytes p ]

  -- The program as it was loaded: its process is made and scheduled.
  unfoldable pub start_program : (irq0 fuel head : ℕ) → World S → Run (ℕ × World S)
  start_program irq0 fuel head w = if (w.store.mms head).mmap == 0 then fault else do
    _ ← count_areas fuel w.store.areas (w.store.mms head).mmap 0
    (first_process, w1) ← create_process paging fuel head w
    sched ← schedule_user_process irq0 fuel first_process w1.sched
    ok (1, record w1 { sched = sched })

  -- The archive lies from `start` to `last`, and `elf` is where the string "ELF" of the source
  -- stands. Without a loadable segment `head` is NULL, and its `mmap` is read.
  unfoldable pub exec_new_binary :
      (irq0 fuel strings start last elf : ℕ) → List ℕ → World S → Run (ℕ × World S)
  exec_new_binary irq0 fuel strings start last elf filename w = do
    p ← get_elf fuel strings (seen w) start last filename
    (let load = do
      _ ← validate_elf_header fuel elf p (seen w)
      (if check_elf_loadable (seen w) p == 0
          then fault
          else (load_elf_vmas paging.kmalloc_user (seen w) p w.store >>= λ (head, store).
              start_program irq0 fuel head (record w { store = store })))
      in if p == 0 then ok (0, w) else load)
