-- ===== src/Process/Mapped.antt =====
-- One area in the loop of `create_process` of sys/task.c: what it makes of the structures.
use sbunix_public.Base.{
  ==_iff, Bool, true, false, ℕ, zero, suc, ◌+◌, ◌-◌, ◌*◌, ◌%◌, ◌^◌, ◌<◌, ◌≤◌, ◌≡◌, ◌≢◌, refl, sym,
  ap, ◌∙◌, arith, ◌==◌, Run, ok, some, List, [], ◌∷◌, Bool-cases, inl, inr,
}
use mathlib.Core.Bool.{false≢true}
use sbunix_public.Memory.{Memory, store, add64, sub64}
use sbunix_public.Paging.Address.{page_align, round_up}
use sbunix_public.Schedule.{Pcb, Sched, write}
use sbunix_public.Schedule.Queue.{write_self, write_ne}
use sbunix_public.Elf.{VmAreaStruct, FileTypes, type_file, type_stack, type_heap, put_area}
use sbunix_public.Elf.Areas.{put_area_same, put_area_other}
use sbunix_public.Process.{
  Paging, World, with_heap, with_pcb, copy_segment, map_file, map_stack, map_area,
}
use sbunix_public.Process.Segment.{moved_place, read_byte_at, copy_step, map_file_step}
use sbunix_public.Process.Areas.{Keeps, Keeps-same, Keeps-then, Wants, file, stack, heap}

-- The stack pointer of a process behind an area of some type.
abbrev pub chosen : (stack_top : ℕ) → FileTypes → (pstack : ℕ) → ℕ
chosen stack_top type_file pstack = pstack
chosen stack_top type_stack pstack = stack_top - 64
chosen stack_top type_heap pstack = pstack

-- The stack pointer that a process gets from its areas: that of the last stack among them.
unfoldable pub stack_of : (stack_top : ℕ) → (ℕ → VmAreaStruct) → List ℕ → (pstack : ℕ) → ℕ
stack_of stack_top f [] pstack = pstack
stack_of stack_top f (a ∷ addrs) pstack =
    stack_of stack_top f addrs (chosen stack_top (f a).vm_type pstack)

-- What a part of the loop makes of the structures: the process gets a stack pointer, and only the
-- bounds of stacks are written besides.
pub record IsMapped {S : Type 0} (process pstack : ℕ) (w w' : World S) : Type 0 where
  pub mms : w'.store.mms ≡ w.store.mms
  pub areas : (a : ℕ) → Keeps (w.store.areas a) (w'.store.areas a)
  pub sched : w'.sched ≡ record (w.sched) { pcb = w'.sched.pcb }
  pub others : (a : ℕ) → a ≢ process → w'.sched.pcb a ≡ w.sched.pcb a
  pub own : w'.sched.pcb process ≡ record (w.sched.pcb process) { pstack = pstack }

is_file : FileTypes → Bool
is_file type_file = true
is_file type_stack = false
is_file type_heap = false

put_area-Keeps :
    (f : ℕ → VmAreaStruct) (a start last b : ℕ)
    → (f a).vm_type ≡ type_stack
    → Keeps (f b) (put_area f a (record (f a) { vm_start = start; vm_end = last }) b)
unfolding is_file
put_area-Keeps f a start last b type =
    let x = record (f a) { vm_start = start; vm_end = last } in
    let here : Keeps (f a) x = record {
      next = refl;
      type = refl;
      file = λ e. absurd (false≢true (ap is_file (sym type ∙ e)));
    } in
    elim (Bool-cases (b == a)) [
      | inl e ↦
          let q = (==_iff b a).0 e in
          coe 0 1 (i. Keeps (f (sym q i)) (put_area f a x (sym q i)))
            (coe 0 1 (i. Keeps (f a) (sym (put_area_same f a x) i)) here)
      | inr e ↦
          let ne = λ (q : b ≡ a). false≢true (sym e ∙ (==_iff b a).1 q) in
          coe 0 1 (i. Keeps (f b) (sym (put_area_other f a x b ne) i)) (Keeps-same (f b))
    ]

-- Neither paging nor the bytes count.
pub IsMapped-heap :
    {S : Type 0} (process : ℕ) (w : World S) (h : S) (m : Memory)
    → IsMapped process
        (w.sched.pcb process).pstack
        w
        (record w { store = record (w.store) { heap = h }; bytes = m })
IsMapped-heap process w h m = record {
  mms = refl;
  areas = λ a. Keeps-same (w.store.areas a);
  sched = refl;
  others = λ a ne. refl;
  own = refl;
}

pub IsMapped-then :
    {S : Type 0} (process x y : ℕ) (u v w : World S)
    → IsMapped process x u v
    → IsMapped process y v w
    → IsMapped process y u w
IsMapped-then process x y u v w a b = record {
  mms = b.mms ∙ a.mms;
  areas =
      λ c. Keeps-then (u.store.areas c) (v.store.areas c) (w.store.areas c) (a.areas c) (b.areas c);
  sched = b.sched ∙ ap (λ (s : Sched). record s { pcb = w.sched.pcb }) a.sched;
  others = λ c ne. b.others c ne ∙ a.others c ne;
  own = b.own ∙ ap (λ (p : Pcb). record p { pstack = y }) a.own;
}

-- Types alone decide the stack pointer.
pub stack_of_kept :
    (stack_top : ℕ) (f g : ℕ → VmAreaStruct) (addrs : List ℕ) (pstack : ℕ)
    → ((a : ℕ) → Keeps (f a) (g a))
    → stack_of stack_top g addrs pstack ≡ stack_of stack_top f addrs pstack
unfolding stack_of
stack_of_kept stack_top f g [] pstack k = refl
stack_of_kept stack_top f g (a ∷ addrs) pstack k =
    rw (k a).type (stack_of_kept stack_top f g addrs _ k)

module _ {S : Type 0} (paging : Paging S) where
  later :
      (h : S) (a i : ℕ)
      → (p : ℕ) × (paging.translated h (a + suc i) ≡ some p)
      → (p : ℕ) × (paging.translated h (a + 1 + i) ≡ some p)
  later h a i (p, at) = (p, moved_place paging h (a + suc i) (a + 1 + i) p (omega arith) at)

  -- The loop over the bytes returns when all of them are mapped.
  copy_segment_returns :
      (n address offset : ℕ) (w : World S)
      → address + n < 2 ^ 64
      → offset + n < 2 ^ 64
      → ((i : ℕ) → i < n → (a : ℕ) × (paging.translated w.store.heap (address + i) ≡ some a))
      → ((i : ℕ) → i < n → (a : ℕ) × (paging.translated w.store.heap (offset + i) ≡ some a))
      → (m : Memory) × (copy_segment paging n address offset w ≡ ok (record w { bytes = m }))
  unfolding copy_segment
  copy_segment_returns zero address offset w lo hi at at' = (w.bytes, refl)
  copy_segment_returns (suc n) address offset w lo hi at at' =
      let (p, here) = at 0 (omega arith) in
      let (q, there) = at' 0 (omega arith) in
      let w1 : World S = record w { bytes = store w.bytes p (w.bytes q) } in
      let (m, run) =
        copy_segment_returns n (address + 1) (offset + 1) w1 (omega arith) (omega arith)
          (λ i lt. later w.store.heap address i (at (suc i) (omega arith)))
          (λ i lt. later w.store.heap offset i (at' (suc i) (omega arith))) in
      (
        m,
        copy_step paging n address offset (address + 1) (offset + 1) p q w
            (ok (record w { bytes = m }))
            (moved_place paging w.store.heap (address + 0) address p (omega arith) here)
            (moved_place paging w.store.heap (offset + 0) offset q (omega arith) there)
            (omega arith) (omega arith) run,
      )

  module _ (stack_top process_cr3 old elf_head process temp : ℕ) (high : 4096 ≤ stack_top)
      (small : stack_top < 2 ^ 64) where
    -- An area is mapped, and paging is in the state that `Wants` ends in.
    abbrev pub Maps : (pstack : ℕ) → World S → S → Run (World S) → Type 0
    Maps pstack w h' r =
        (w' : World S) × (r ≡ ok w') × (w'.store.heap ≡ h') × IsMapped process pstack w w'

    map_file-Maps :
        (start size offset : ℕ) (w : World S) (h h' : S)
        → start ≡ page_align (w.store.areas temp).vm_start
        → size ≡ round_up (sub64 (w.store.areas temp).vm_end start)
        → offset ≡ add64 elf_head (8 * (w.store.areas temp).vm_offset % 2 ^ 64)
        → 2 < size
        → start + size < 2 ^ 64
        → offset + size < 2 ^ 64
        → paging.kmalloc_top_virtual_address_user size start
            (paging.set_cr3 process_cr3 w.store.heap)
          ≡ ok (start, h)
        → ((i : ℕ) → i < size → (a : ℕ) × (paging.translated h (start + i) ≡ some a))
        → ((i : ℕ) → i < size → (a : ℕ) × (paging.translated h (offset + i) ≡ some a))
        → paging.set_cr3 old h ≡ h'
        → Maps (w.sched.pcb process).pstack w h' (map_file paging process_cr3 old elf_head temp w)
    map_file-Maps start size offset w h h' is_start is_size is_offset bytes lo hi run at image
          back =
        let (m, copy) = copy_segment_returns size start offset (with_heap h w) lo hi at image in
        let (p, second) = at 1 (omega arith) in
        let (q, third) = at 2 (omega arith) in
        (
          record w { store = record (w.store) { heap = paging.set_cr3 old h }; bytes = m },
          map_file_step paging process_cr3 old elf_head temp size start offset p q w h m is_start
              is_size is_offset run copy
              (moved_place paging h (start + 1) (add64 start 1) p (omega arith) second)
              (moved_place paging h (start + 2) (add64 start 2) q (omega arith) third),
          back,
          IsMapped-heap process w (paging.set_cr3 old h) m,
        )

    -- The structures behind a stack.
    abbrev stacked : (pstack : ℕ) → S → World S → World S
    stacked pstack h w =
        let x = record (w.store.areas temp) {
          vm_start = pstack;
          vm_end = add64 pstack (8 * (512 * 3 - 1));
        } in
        record w {
          store = record (w.store) { heap = h; areas = put_area w.store.areas temp x };
          sched = record (w.sched) {
            pcb = write w.sched.pcb process (record (w.sched.pcb process) { pstack = pstack });
          };
        }

    stacked-IsMapped :
        (pstack : ℕ) (h : S) (w : World S)
        → (w.store.areas temp).vm_type ≡ type_stack
        → IsMapped process pstack w (stacked pstack h w)
    stacked-IsMapped pstack h w type = record {
      mms = refl;
      areas =
          λ b. put_area-Keeps w.store.areas temp pstack (add64 pstack (8 * (512 * 3 - 1))) b type;
      sched = refl;
      others = λ a ne.
          write_ne w.sched.pcb process a (record (w.sched.pcb process) { pstack = pstack }) ne;
      own = write_self w.sched.pcb process (record (w.sched.pcb process) { pstack = pstack });
    }

    map_stack_step :
        (top from pstack below p v : ℕ) (w : World S) (h : S)
        → paging.paging_user_stack_top w.store.heap ≡ top
        → add64 (sub64 top 4096) 8 ≡ from
        → sub64 top 64 ≡ pstack
        → sub64 pstack 800 ≡ below
        → paging.kmalloc_top_virtual_address_user 4096 from
            (paging.set_cr3 process_cr3 w.store.heap)
          ≡ ok (v, h)
        → paging.translated h below ≡ some p
        → map_stack paging process_cr3 old process temp w
          ≡ ok (stacked pstack (paging.set_cr3 old h) w)
    unfolding map_stack with_pcb
    map_stack_step top from pstack below p v w h is_top is_from is_pstack is_below run at =
        rw
          (
            is_top,
            is_from,
            is_pstack,
            run,
            is_below,
            read_byte_at paging below p (stacked pstack h w) at,
          )
          refl

    pub map_area-Maps :
        (w : World S) (h' : S)
        → Wants paging stack_top process_cr3 old elf_head (w.store.areas temp) w.store.heap h'
        → Maps
            (chosen stack_top (w.store.areas temp).vm_type (w.sched.pcb process).pstack)
            w
            h'
            (map_area paging process_cr3 old elf_head process temp w)
    unfolding map_area
    map_area-Maps w h' (file start size offset h type a b c d e f run at image back) =
        rw (map_area, type) (map_file-Maps start size offset w h h' a b c d e f run at image back)
    map_area-Maps w h' (stack v p h type top run at back) =
        rw (map_area, type)
          (
            stacked (stack_top - 64) (paging.set_cr3 old h) w,
            map_stack_step stack_top (stack_top + 8 - 4096) (stack_top - 64) (stack_top - 64 - 800)
                p v w h top (omega arith) (omega arith) (omega arith) run at,
            back,
            stacked-IsMapped (stack_top - 64) (paging.set_cr3 old h) w type,
          )
    map_area-Maps w h' (heap type back) =
        rw (map_area, type) (w, refl, back, IsMapped-heap process w w.store.heap w.bytes)
