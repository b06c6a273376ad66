-- ===== src/Process/Create.antt =====
-- The loop of `create_process` of sys/task.c over the areas, and the whole of it.
use sbunix_public.Base.{
  ℕ, zero, suc, ◌^◌, ◌<◌, ◌≤◌, ◌≡◌, ◌≢◌, refl, sym, ap, ◌∙◌, arith, ne→==, Run, ok, List, [], ◌∷◌,
  length,
}
use sbunix_public.Schedule.{Pcb, write}
use sbunix_public.Schedule.Queue.{write_self, write_ne}
use sbunix_public.Process.{
  Paging, World, with_heap, with_pcb, map_area, map_areas, clear_pcb, new_pcb, new_tables,
  create_process, sizeof_pcb,
}
use sbunix_public.Process.Areas.{Keeps, HasCr3, IsMade, Walks, end, area, Walks-kept, Walks-cr3}
use sbunix_public.Process.Mapped.{
  stack_of, IsMapped-heap, stack_of_kept, chosen, IsMapped, IsMapped-then, map_area-Maps,
}

module _ {S : Type 0} (paging : Paging S) where
  map_areas_step :
      (fuel process_cr3 old elf_head process p q : ℕ) (w w1 : World S) (r : Run (World S))
      → p ≢ 0
      → map_area paging process_cr3 old elf_head process p w ≡ ok w1
      → (w1.store.areas p).vm_next ≡ q
      → map_areas paging fuel process_cr3 old elf_head process q w1 ≡ r
      → map_areas paging (suc fuel) process_cr3 old elf_head process p w ≡ r
  unfolding map_areas
  map_areas_step fuel process_cr3 old elf_head process p q w w1 r live run next rest =
      rw (ne→== p 0 live, run, next) rest

  -- The world when the loop over the areas begins.
  prepared : (head process page : ℕ) → S → World S → World S
  unfolding with_pcb
  prepared head process page h w =
      let cleared = with_pcb process (clear_pcb (w.sched.pcb process)) (with_heap h w) in
      with_pcb process
        (record (cleared.sched.pcb process) { cr3 = page; e_entry = (w.store.mms head).e_entry })
        cleared

  -- The result of `create_process`: the process has the page of its tables, the entry point of the
  -- program, and a stack pointer if there is a stack; no other process changes, and of the areas
  -- only the bounds of stacks.
  pub record IsCreated (head process page stack : ℕ) (w w' : World S) : Type 0 where
    pub cr3 : (w'.sched.pcb process).cr3 ≡ page
    pub e_entry : (w'.sched.pcb process).e_entry ≡ (w.store.mms head).e_entry
    pub pstack : (w'.sched.pcb process).pstack ≡ stack
    pub others : (a : ℕ) → a ≢ process → w'.sched.pcb a ≡ w.sched.pcb a
    pub sched : w'.sched ≡ record (w.sched) { pcb = w'.sched.pcb }
    pub mms : w'.store.mms ≡ w.store.mms
    pub areas : (a : ℕ) → Keeps (w.store.areas a) (w'.store.areas a)
    pub same_cr3 : paging.get_cr3 w'.store.heap ≡ paging.get_cr3 w.store.heap

  module _ (stack_top : ℕ) (high : 4096 ≤ stack_top) (small : stack_top < 2 ^ 64) where
    map_areas-Maps :
        (addrs : List ℕ) (fuel elf_head process_cr3 old process p : ℕ) (w : World S) (h' : S)
        → Walks paging stack_top process_cr3 old elf_head w.store.areas p addrs w.store.heap h'
        → length addrs < fuel
        → (w' : World S) × (map_areas paging fuel process_cr3 old elf_head process p w ≡ ok w')
          × (w'.store.heap ≡ h')
          × IsMapped process
              (stack_of stack_top w.store.areas addrs (w.sched.pcb process).pstack)
              w
              w'
    unfolding map_areas stack_of
    map_areas-Maps addrs zero elf_head process_cr3 old process p w h' walk enough =
        absurd (omega arith)
    map_areas-Maps [] (suc fuel) elf_head process_cr3 old process p w h' (end _ _ back) enough =
        (w, refl, back, IsMapped-heap process w w.store.heap w.bytes)
    map_areas-Maps (q ∷ addrs) (suc fuel) elf_head process_cr3 old process p w h'
          (area _ _ _ h1 _ live wants rest) enough =
        let (w1, run, at, is) =
          map_area-Maps paging stack_top process_cr3 old elf_head process p high small w h1 wants in
        let walk1 =
          Walks-kept paging stack_top process_cr3 old elf_head w.store.areas w1.store.areas
            (w.store.areas p).vm_next addrs h1 h' is.areas rest in
        let (w', run', at', is') =
          map_areas-Maps addrs fuel elf_head process_cr3 old process (w.store.areas p).vm_next w1 h'
            (coe 0 1
              (i.
                Walks paging stack_top process_cr3 old elf_head w1.store.areas
                  (w.store.areas p).vm_next addrs (sym at i) h')
              walk1)
            (omega arith) in
        let pstack1 = chosen stack_top (w.store.areas p).vm_type (w.sched.pcb process).pstack in
        let stack =
          stack_of_kept stack_top w.store.areas w1.store.areas addrs (w1.sched.pcb process).pstack
            is.areas
          ∙ ap (λ (x : Pcb). stack_of stack_top w.store.areas addrs x.pstack) is.own in
        (
          w',
          map_areas_step fuel process_cr3 old elf_head process p (w.store.areas p).vm_next w w1
              (ok w') live run (is.areas p).next run',
          at',
          IsMapped-then process pstack1 (stack_of stack_top w.store.areas addrs pstack1) w w1 w' is
              (coe 0 1 (i. IsMapped process (stack i) w1 w') is'),
        )

    -- The structure and the tables of a new process, and the fields that are then written.
    create_process_step :
        (fuel head process page r : ℕ) (w : World S) (h1 h3 : S) (w' : World S)
        → head ≢ 0
        → process ≢ 0
        → paging.kmalloc_user sizeof_pcb w.store.heap ≡ ok (process, h1)
        → (paging.get_next_free_page_kmalloc h1).0 ≡ page
        → paging.create_new_user_pml4 page (paging.get_next_free_page_kmalloc h1).1 ≡ ok (r, h3)
        → map_areas paging fuel page
            (paging.get_cr3 h3)
            (w.store.mms head).elf_head
            process
            (w.store.mms head).mmap
            (prepared head process page h3 w)
          ≡ ok w'
        → create_process paging fuel head w ≡ ok (process, w')
    unfolding create_process new_pcb new_tables with_pcb prepared
    create_process_step fuel head process page r w h1 h3 w' some live run is_page tables areas =
        rw (run, ne→== process 0 live, is_page, tables, ne→== head 0 some, areas) refl

    prepared_own :
        (head process page : ℕ) (h : S) (w : World S)
        → (prepared head process page h w).sched.pcb process
          ≡ record (clear_pcb (w.sched.pcb process)) {
            cr3 = page;
            e_entry = (w.store.mms head).e_entry;
          }
    unfolding prepared with_pcb
    prepared_own head process page h w =
        let f = w.sched.pcb in
        let set = λ (x : Pcb). record x { cr3 = page; e_entry = (w.store.mms head).e_entry } in
        let g = write f process (clear_pcb (f process)) in
        write_self g process (set (g process))
        ∙ ap set (write_self f process (clear_pcb (f process)))

    prepared_other :
        (head process page a : ℕ) (h : S) (w : World S)
        → a ≢ process
        → (prepared head process page h w).sched.pcb a ≡ w.sched.pcb a
    unfolding prepared with_pcb
    prepared_other head process page a h w ne =
        let f = w.sched.pcb in
        let g = write f process (clear_pcb (f process)) in
        let x = record (g process) { cr3 = page; e_entry = (w.store.mms head).e_entry } in
        write_ne g process a x ne ∙ write_ne f process a (clear_pcb (f process)) ne

    prepared_pstack :
        (head process page : ℕ) (h : S) (w : World S)
        → ((prepared head process page h w).sched.pcb process).pstack ≡ (w.sched.pcb process).pstack
    unfolding clear_pcb
    prepared_pstack head process page h w =
        ap (λ (x : Pcb). x.pstack) (prepared_own head process page h w)

    prepared-IsCreated :
        (head process page stack : ℕ) (h : S) (w w' : World S)
        → paging.get_cr3 w'.store.heap ≡ paging.get_cr3 w.store.heap
        → IsMapped process stack (prepared head process page h w) w'
        → IsCreated head process page stack w w'
    unfolding prepared with_pcb
    prepared-IsCreated head process page stack h w w' same is =
        let own = is.own in
        let made = prepared_own head process page h w in
        record {
          cr3 = ap (λ (x : Pcb). x.cr3) own ∙ ap (λ (x : Pcb). x.cr3) made;
          e_entry = ap (λ (x : Pcb). x.e_entry) own ∙ ap (λ (x : Pcb). x.e_entry) made;
          pstack = ap (λ (x : Pcb). x.pstack) own;
          others = λ a ne. is.others a ne ∙ prepared_other head process page a h w ne;
          sched = is.sched;
          mms = is.mms;
          areas = is.areas;
          same_cr3 = same;
        }

    -- `create_process` answers a new process with the page of its tables, the entry point of the
    -- program, and the top of the stack if one of the areas is a stack, and maps all the areas. No
    -- other process changes, of the areas only the bounds of stacks do, and CR3 is the same again.
    -- The areas form a list, which the fuel suffices for; the calls for the structure and the tables
    -- of the process succeed and keep CR3, and so do those that the areas ask for, one after the
    -- other, from each state to the next.
    pub create_process_lem :
        (fuel head process page : ℕ) (addrs : List ℕ) (w : World S) (h h' : S)
        → HasCr3 paging
        → head ≢ 0
        → IsMade paging process page w.store.heap h
        → Walks paging stack_top page
            (paging.get_cr3 h)
            (w.store.mms head).elf_head
            w.store.areas
            (w.store.mms head).mmap
            addrs
            h
            h'
        → length addrs < fuel
        → (w' : World S) × (create_process paging fuel head w ≡ ok (process, w'))
          × (w'.store.heap ≡ h')
          × IsCreated head process page
              (stack_of stack_top w.store.areas addrs (w.sched.pcb process).pstack)
              w
              w'
    unfolding prepared
    create_process_lem fuel head process page addrs w h h' law some made walk enough =
        let elf_head = (w.store.mms head).elf_head in
        let mmap = (w.store.mms head).mmap in
        let old = paging.get_cr3 h in
        let (w', areas, at, is) =
          map_areas-Maps addrs fuel elf_head page old process mmap (prepared head process page h w)
            h' walk enough in
        let same =
          ap paging.get_cr3 at
          ∙ Walks-cr3 paging stack_top page old elf_head w.store.areas mmap addrs h h' law refl
              walk in
        (
          w',
          create_process_step fuel head process page made.result w made.given h w' some made.live
              made.structure made.page_given made.tables areas,
          at,
          prepared-IsCreated head process page
              (stack_of stack_top w.store.areas addrs (w.sched.pcb process).pstack) h w w'
              (same ∙ made.cr3)
              (coe 0 1
                (i.
                  IsMapped process
                    (stack_of stack_top w.store.areas addrs
                      (prepared_pstack head process page h w i))
                    (prepared head process page h w) w')
                is),
        )
