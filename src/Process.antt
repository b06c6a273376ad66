-- ===== src/Process.antt =====
-- The creation of processes in sys/task.c. What it uses of sys/paging.c and of the processor is an
-- argument, the record `Paging`; Process/Machine puts the model of sys/paging.c in its place. Process
-- structures, areas and `mm_struct`s stand in stores by their addresses. What `kprintf` shows is left
-- out, apart from the reads through pointers that it needs.
pub mod Segment
pub mod Areas
pub mod Mapped
pub mod Create
pub mod Exec
pub mod Machine
mod Tests
mod Booted
mod Program
use sbunix_public.Base.{
  ℕ, zero, suc, ◌-◌, ◌*◌, ◌/◌, ◌%◌, ◌^◌, Run, ok, fault, out_of_fuel, ◌>>=◌, ◌==◌, ltb,
  if◌then◌else◌, Option, none, some,
}
use sbunix_public.Memory.{Memory, store, add64, sub64}
use sbunix_public.Paging.Address.{pagesize, page_align, round_up}
use sbunix_public.Schedule.{Pcb, Sched, write, running}
use sbunix_public.Elf.{type_file, type_stack, type_heap, put_area, Store}

-- `translated` is the processor's translation of an address under the present CR3.
pub record Paging (S : Type 0) : Type 0 where
  pub kmalloc_user : ℕ → S → Run (ℕ × S)
  pub kmalloc_top_virtual_address_user : (size top_virtual_address : ℕ) → S → Run (ℕ × S)
  pub get_next_free_page_kmalloc : S → ℕ × S
  pub create_new_user_pml4 : ℕ → S → Run (ℕ × S)
  pub get_cr3 : S → ℕ
  pub set_cr3 : ℕ → S → S
  pub paging_user_stack_top : S → ℕ
  pub translated : S → ℕ → Option ℕ

-- The state of paging, the areas and the `mm_struct`s, the processes, and the bytes of physical memory
-- that hold files and the contents of processes.
pub record World (S : Type 0) : Type 0 where
  pub store : Store S
  pub sched : Sched
  pub bytes : Memory

module _ {S : Type 0} where
  abbrev pub with_heap : S → World S → World S
  with_heap h w = record w { store = record (w.store) { heap = h } }

  -- The fields of a process.
  pub with_pcb : ℕ → Pcb → World S → World S
  unfolding write
  with_pcb process p w = record w { sched = record (w.sched) { pcb = write w.sched.pcb process p } }

-- The size of the structure in bytes, and `memset(new_process, 0, sizeof(pcb) / 8)`, which clears 522
-- of them: 65 words of the stack at its start, and two bytes more.
abbrev pub sizeof_pcb : ℕ
sizeof_pcb = 4176

pub clear_pcb : Pcb → Pcb
clear_pcb p = record p {
  kstack =
      λ i. if ltb i 65 then 0 else (if i == 65 then p.kstack 65 / 2 ^ 16 * 2 ^ 16 else p.kstack i);
}

module _ {S : Type 0} (paging : Paging S) where
  -- `*p` and `*p = v` for a byte.
  pub read_byte : ℕ → World S → Run ℕ
  read_byte p w = elim (paging.translated w.store.heap p) [ none ↦ fault | some a ↦ ok (w.bytes a) ]

  pub write_byte : (p v : ℕ) → World S → Run (World S)
  unfolding store
  write_byte p v w = elim (paging.translated w.store.heap p) [
    | none ↦ fault
    | some a ↦ ok (record w { bytes = store w.bytes a v })
  ]

  -- The loop that copies a segment, `left` bytes to go.
  pub copy_segment : (left address offset : ℕ) → World S → Run (World S)
  copy_segment zero address offset w = ok w
  copy_segment (suc left) address offset w = do
    v ← read_byte offset w
    w' ← write_byte address v w
    copy_segment left (add64 address 1) (add64 offset 1) w'

  abbrev pub switch_to : ℕ → World S → World S
  switch_to cr3 w = with_heap (paging.set_cr3 cr3 w.store.heap) w

  -- `kmalloc_user(sizeof(pcb))` and the `memset` behind it.
  pub new_pcb : World S → Run (ℕ × World S)
  unfolding with_pcb clear_pcb
  new_pcb w = do
    (p, h) ← paging.kmalloc_user sizeof_pcb w.store.heap
    (if p == 0 then fault else ok (p, with_pcb p (clear_pcb (w.sched.pcb p)) (with_heap h w)))

  -- A page for the tables of a process, and the tables; whether there were pages is not asked.
  pub new_tables : World S → Run (ℕ × World S)
  new_tables w =
      let r = paging.get_next_free_page_kmalloc w.store.heap in
      paging.create_new_user_pml4 r.0 r.1 >>= λ t. ok (r.0, with_heap t.1 w)

  module _ (process_cr3 old_cr3 elf_head temp : ℕ) where
    -- An area of type TYPE_FILE: `elf_head` is a pointer to words, so that the offset counts eight
    -- times.
    pub map_file : World S → Run (World S)
    map_file w =
        let x = w.store.areas temp in
        let vm_start = page_align x.vm_start in
        let vm_size = round_up (sub64 x.vm_end vm_start) in
        do
          (v_addr, h) ←
              paging.kmalloc_top_virtual_address_user vm_size vm_start
                (paging.set_cr3 process_cr3 w.store.heap)
          w1 ←
              copy_segment vm_size v_addr (add64 elf_head (8 * x.vm_offset % 2 ^ 64))
                (with_heap h w)
          _ ← read_byte (add64 v_addr 1) w1
          _ ← read_byte (add64 v_addr 2) w1
          ok (switch_to old_cr3 w1)

  module _ (process_cr3 old_cr3 new_process temp : ℕ) where
    -- An area of type TYPE_STACK.
    pub map_stack : World S → Run (World S)
    unfolding with_pcb put_area
    map_stack w =
        let stack_top = paging.paging_user_stack_top w.store.heap in
        let pstack = sub64 stack_top 64 in
        let stack = record (w.store.areas temp) {
          vm_start = pstack;
          vm_end = add64 pstack (8 * (512 * 3 - 1));
        } in
        do
          (new_stack, h) ←
              paging.kmalloc_top_virtual_address_user pagesize (add64 (sub64 stack_top pagesize) 8)
                (paging.set_cr3 process_cr3 w.store.heap)
          (let w1 =
                with_pcb new_process (record (w.sched.pcb new_process) { pstack = pstack })
                  (with_heap h w) in
              let w2 = record w1 {
                store = record (w1.store) { areas = put_area w1.store.areas temp stack };
              } in
              read_byte (sub64 pstack 800) w2 >>= λ _. ok (switch_to old_cr3 w2))

  pub map_area : (process_cr3 old_cr3 elf_head new_process temp : ℕ) → World S → Run (World S)
  map_area process_cr3 old_cr3 elf_head new_process temp w = elim (w.store.areas temp).vm_type [
    | type_file ↦ map_file process_cr3 old_cr3 elf_head temp w
    | type_stack ↦ map_stack process_cr3 old_cr3 new_process temp w
    | type_heap ↦ ok w
  ]

  -- The loop over the areas.
  pub map_areas : ℕ → (process_cr3 old_cr3 elf_head new_process temp : ℕ) → World S → Run (World S)
  map_areas zero process_cr3 old_cr3 elf_head new_process temp w = out_of_fuel
  map_areas (suc fuel) process_cr3 old_cr3 elf_head new_process temp w =
      let next = λ (w' : World S).
        map_areas fuel process_cr3 old_cr3 elf_head new_process (w'.store.areas temp).vm_next w' in
      if temp == 0
      then ok w
      else (map_area process_cr3 old_cr3 elf_head new_process temp w >>= next)

  pub create_process : (fuel head : ℕ) → World S → Run (ℕ × World S)
  unfolding with_pcb
  create_process fuel head w = do
    (new_process, w1) ← new_pcb w
    (process_cr3, w2) ← new_tables w1
    (let old_cr3 = paging.get_cr3 w2.store.heap in
        let mm = w2.store.mms head in
        let made = record (w2.sched.pcb new_process) { cr3 = process_cr3; e_entry = mm.e_entry } in
        if head == 0
        then fault
        else (map_areas fuel process_cr3 old_cr3 mm.elf_head new_process mm.mmap
              (with_pcb new_process made w2)
            >>= λ w3. ok (new_process, w3)))

  pub create_dummy_process : World S → Run (ℕ × World S)
  unfolding with_pcb
  create_dummy_process w = do
    (new_process, w1) ← new_pcb w
    (process_cr3, w2) ← new_tables w1
    ok (
      new_process,
      with_pcb new_process
          (record (w2.sched.pcb new_process) {
            pstack = 0;
            pid = 0;
            rsp = 0;
            cr3 = process_cr3;
            state = running;
            exit_status = 0;
            next = 0;
            e_entry = 0;
            time_remaining = 3;
          })
          w2,
    )
