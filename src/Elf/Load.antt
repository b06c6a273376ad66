-- ===== src/Elf/Load.antt =====
-- The loop of `load_elf_vmas` of sys/elf64.c, and the whole of it.
use mathlib.Core.Bool.{false≢true}
use sbunix_public.Base.{
  bind-ok, bind_assoc, length-append, length-map, ℕ, zero, suc, ◌+◌, ◌≡◌, ◌≢◌, refl, sym, ap, ◌∙◌,
  Run, ok, ◌>>=◌, ◌==◌, if◌then◌else◌, Run-cases, Bool-cases, inl, inr, eq→==, ne→==, List, [], ◌∷◌,
  ◌++◌, map, length, arith,
}
use sbunix_public.Memory.{Memory}
use sbunix_public.Elf.{
  read_ehdr, phdr_at, pt_load, VmAreaStruct, MmStruct, Store, Purpose, segment, stack, heap, fill,
  put_area, new_struct, sizeof_vm_area, sizeof_mm, first_area, next_area, add_area, load_segments,
  load_elf_vmas,
}
use sbunix_public.Elf.Tables.{load_headers, segments}
use sbunix_public.Elf.Areas.{
  Supplies, call, IsApart, AreDistinct, IsListed, IsFor, and, area, IsFor-fill, put_area_same,
  put_area_other, next_areas, next_areas_lem, appended,
}

-- What the areas of a process are for.
unfoldable pub purposes : Memory → ℕ → List Purpose
purposes m ehdr = map segment (segments m ehdr) ++ (stack ∷ heap ∷ [])

length-purposes : (m : Memory) (ehdr : ℕ) → length (purposes m ehdr) ≡ length (segments m ehdr) + 2
unfolding purposes
length-purposes m ehdr =
    length-append (map segment (segments m ehdr)) (stack ∷ heap ∷ [])
    ∙ ap (λ (n : ℕ). n + 2) (length-map (segments m ehdr) segment)

module _ {S : Type 0} (alloc : ℕ → S → Run (ℕ × S)) where
  -- Runs that go on with the same list do the same when they agree on that list.
  next_area_bind :
      (c : Purpose) (vma_head next : ℕ) (s : Store S)
      (f g : ℕ × ℕ → Store S → Run ((ℕ × ℕ) × Store S))
      → ((a : ℕ) (t : Store S) → f (vma_head, a) t ≡ g (vma_head, a) t)
      → (next_area alloc c (vma_head, next) s >>= λ r. f r.0 r.1)
        ≡ (next_area alloc c (vma_head, next) s >>= λ r. g r.0 r.1)
  unfolding next_area new_struct
  next_area_bind c vma_head next s f g same = elim (Run-cases (alloc sizeof_vm_area s.heap)) [
    | inl ((a, h), e) ↦ elim (Bool-cases (a == 0)) [
      | inl q ↦ rw (e, q) refl
      | inr q ↦ rw (e, q) (same a (appended alloc c next a h s))
    ]
    | inr (inl e) ↦ rw e refl
    | inr (inr e) ↦ rw e refl
  ]

  first_area_bind :
      (c : Purpose) (s : Store S) (f g : ℕ × ℕ → Store S → Run ((ℕ × ℕ) × Store S))
      → ((a : ℕ) (t : Store S) → a ≢ 0 → f (a, a) t ≡ g (a, a) t)
      → (first_area alloc c s >>= λ r. f r.0 r.1) ≡ (first_area alloc c s >>= λ r. g r.0 r.1)
  unfolding first_area new_struct
  first_area_bind c s f g same = elim (Run-cases (alloc sizeof_vm_area s.heap)) [
    | inl ((a, h), e) ↦ elim (Bool-cases (a == 0)) [
      | inl q ↦ rw (e, q) refl
      | inr q ↦ rw (e, q) (same a _ (λ z. false≢true (sym q ∙ eq→== a 0 z)))
    ]
    | inr (inl e) ↦ rw e refl
    | inr (inr e) ↦ rw e refl
  ]

  -- The loop adds an area for each segment, behind a list that is there.
  load_segments-next_areas :
      (left : ℕ) (m : Memory) (ehdr i vma_head next : ℕ) (s : Store S)
      → vma_head ≢ 0
      → load_segments alloc m ehdr i left (vma_head, next) s
        ≡ next_areas alloc (map segment (load_headers m ehdr i left)) (vma_head, next) s
  unfolding load_segments load_headers next_areas add_area
  load_segments-next_areas zero m ehdr i vma_head next s ne = refl
  load_segments-next_areas (suc left) m ehdr i vma_head next s ne =
      let phdr = phdr_at m ehdr i in
      elim (Bool-cases (phdr.p_type == pt_load)) [
        | inl q ↦
            rw (q, ne→== vma_head 0 ne)
              (next_area_bind (segment phdr) vma_head next s _ _
                (λ a t. load_segments-next_areas left m ehdr (i + 1) vma_head a t ne))
        | inr q ↦ rw q (load_segments-next_areas left m ehdr (i + 1) vma_head next s ne)
      ]

  -- Areas for one purpose after the other, from an empty list on.
  all_areas : List Purpose → Store S → Run ((ℕ × ℕ) × Store S)
  all_areas [] s = ok ((0, 0), s)
  all_areas (c ∷ cs) s = first_area alloc c s >>= λ r. next_areas alloc cs r.0 r.1

  load_segments-all_areas :
      (left : ℕ) (m : Memory) (ehdr i : ℕ) (s : Store S)
      → load_segments alloc m ehdr i left (0, 0) s
        ≡ all_areas (map segment (load_headers m ehdr i left)) s
  unfolding load_segments load_headers all_areas add_area
  load_segments-all_areas zero m ehdr i s = refl
  load_segments-all_areas (suc left) m ehdr i s =
      let phdr = phdr_at m ehdr i in
      elim (Bool-cases (phdr.p_type == pt_load)) [
        | inl q ↦ rw q (
            first_area_bind (segment phdr) s _ _
              (λ a t ne. load_segments-next_areas left m ehdr (i + 1) a a t ne))
        | inr q ↦ rw q (load_segments-all_areas left m ehdr (i + 1) s)
      ]

  -- The stack and the heap behind the segments.
  abbrev stack_and_heap : (ℕ × ℕ) × Store S → Run ((ℕ × ℕ) × Store S)
  stack_and_heap r =
      (if r.0.0 == 0 then first_area alloc stack r.1 else next_area alloc stack r.0 r.1) >>= λ r'.
      next_area alloc heap r'.0 r'.1

  next_areas-stack_and_heap :
      (cs : List Purpose) (vma_head next : ℕ) (s : Store S)
      → vma_head ≢ 0
      → (next_areas alloc cs (vma_head, next) s >>= stack_and_heap)
        ≡ next_areas alloc (cs ++ (stack ∷ heap ∷ [])) (vma_head, next) s
  unfolding next_areas
  next_areas-stack_and_heap [] vma_head next s ne = rw (ne→== vma_head 0 ne) (
      next_area_bind stack vma_head next s _ _
        (λ a t. sym (bind-ok (next_area alloc heap (vma_head, a) t))))
  next_areas-stack_and_heap (c ∷ cs) vma_head next s ne =
      bind_assoc (next_area alloc c (vma_head, next) s) (λ r. next_areas alloc cs r.0 r.1)
        stack_and_heap
      ∙ next_area_bind c vma_head next s _ _ (λ a t. next_areas-stack_and_heap cs vma_head a t ne)

  all_areas-stack_and_heap :
      (cs : List Purpose) (s : Store S)
      → (all_areas cs s >>= stack_and_heap) ≡ all_areas (cs ++ (stack ∷ heap ∷ [])) s
  unfolding all_areas next_areas
  all_areas-stack_and_heap [] s =
      first_area_bind stack s _ _ (λ a t ne. sym (bind-ok (next_area alloc heap (a, a) t)))
  all_areas-stack_and_heap (c ∷ cs) s =
      bind_assoc (first_area alloc c s) (λ r. next_areas alloc cs r.0 r.1) stack_and_heap
      ∙ first_area_bind c s _ _ (λ a t ne. next_areas-stack_and_heap cs a a t ne)

  -- What the run makes of a store.
  pub record IsLoaded (s t : Store S) (p : ℕ) (addrs : List ℕ) (cs : List Purpose) : Type 0 where
    pub mms : t.mms ≡ s.mms
    pub listed : IsListed t.areas p addrs cs
    pub apart : (b : ℕ) → IsApart b addrs → t.areas b ≡ s.areas b

  kept_apart :
      (s t : Store S) (x : VmAreaStruct) (a : ℕ) (addrs : List ℕ) (b : ℕ)
      → ((b' : ℕ) → b' ≢ a → IsApart b' addrs → t.areas b' ≡ put_area s.areas a x b')
      → IsApart b (a ∷ addrs)
      → t.areas b ≡ s.areas b
  kept_apart s t x a addrs b apart (and _ _ ne rest) =
      apart b ne rest ∙ put_area_other s.areas a x b ne

  all_areas_lem :
      (c : Purpose) (cs : List Purpose) (a : ℕ) (addrs : List ℕ) (s : Store S) (h : S)
      → length addrs ≡ length cs
      → Supplies alloc sizeof_vm_area s.heap (a ∷ addrs) h
      → AreDistinct (a ∷ addrs)
      → (t : Store S) × (last : ℕ) × (all_areas (c ∷ cs) s ≡ ok ((a, last), t))
        × (t.heap ≡ h)
        × IsLoaded s t a (a ∷ addrs) (c ∷ cs)
  unfolding all_areas first_area new_struct
  all_areas_lem c cs a addrs s h len (call {h1} _ _ run live supply) (and _ _ first distinct) =
      let filled = record (fill c (s.areas a)) { vm_next = 0 } in
      let s1 : Store S = record s { heap = h1; areas = put_area s.areas a filled } in
      let at = put_area_same s.areas a filled in
      let (t, last, go, heap', app) =
        next_areas_lem alloc cs addrs a a s1 h len supply first distinct
          (ap (λ (x : VmAreaStruct). x.vm_next) at) in
      let here : IsFor c (put_area s.areas a filled a) =
        coe 0 1 (i. IsFor c (sym at i)) (IsFor-fill c (s.areas a) 0) in
      (
        t,
        last,
        rw (run, ne→== a 0 live) go,
        heap',
        record {
          mms = app.mms;
          listed = area a addrs c cs (app.kept c here) app.listed;
          apart = λ b e. kept_apart s t filled a addrs b app.apart e;
        },
      )

  all_purposes :
      (cs : List Purpose) (a : ℕ) (addrs : List ℕ) (s : Store S) (h : S)
      → length (a ∷ addrs) ≡ length cs
      → Supplies alloc sizeof_vm_area s.heap (a ∷ addrs) h
      → AreDistinct (a ∷ addrs)
      → (t : Store S) × (last : ℕ) × (all_areas cs s ≡ ok ((a, last), t))
        × (t.heap ≡ h)
        × IsLoaded s t a (a ∷ addrs) cs
  all_purposes [] a addrs s h len supply distinct = absurd (omega arith)
  all_purposes (c ∷ cs) a addrs s h len supply distinct =
      all_areas_lem c cs a addrs s h (omega arith) supply distinct

  areas_run :
      (m : Memory) (ehdr : ℕ) (s : Store S)
      → (load_segments alloc m ehdr 0 (read_ehdr m ehdr).e_phnum (0, 0) s >>= stack_and_heap)
        ≡ all_areas (purposes m ehdr) s
  unfolding purposes segments
  areas_run m ehdr s =
      rw (load_segments-all_areas (read_ehdr m ehdr).e_phnum m ehdr 0 s)
        (all_areas-stack_and_heap (map segment (segments m ehdr)) s)

  -- What `load_elf_vmas` writes at the end.
  abbrev with_mm : Memory → (ehdr mm_head vma_head : ℕ) → Store S → Store S
  with_mm m ehdr mm_head vma_head s =
      let mm = record (s.mms mm_head) {
        mmap = vma_head;
        elf_head = ehdr;
        e_entry = (read_ehdr m ehdr).e_entry;
      } in
      record s { mms = λ b. if b == mm_head then mm else s.mms b }

  load_run :
      (m : Memory) (ehdr mm_head : ℕ) (s : Store S) (h1 : S)
      → alloc sizeof_mm s.heap ≡ ok (mm_head, h1)
      → mm_head ≢ 0
      → load_elf_vmas alloc m ehdr s ≡ (
          all_areas (purposes m ehdr) (record s { heap = h1 }) >>= λ r.
          ok (mm_head, with_mm m ehdr mm_head r.0.0 r.1))
  unfolding load_elf_vmas new_struct
  load_run m ehdr mm_head s h1 run live =
      let s1 = record s { heap = h1 } in
      let segments_run = load_segments alloc m ehdr 0 (read_ehdr m ehdr).e_phnum (0, 0) s1 in
      let finish = λ (r : (ℕ × ℕ) × Store S). ok (mm_head, with_mm m ehdr mm_head r.0.0 r.1) in
      rw (run, ne→== mm_head 0 live)
        ((λ i. segments_run >>= λ r.
            sym
              (bind_assoc
                (if r.0.0 == 0 then first_area alloc stack r.1 else next_area alloc stack r.0 r.1)
                (λ r'. next_area alloc heap r'.0 r'.1) finish)
              i)
          ∙ sym (bind_assoc segments_run stack_and_heap finish)
          ∙ ap (λ (x : Run ((ℕ × ℕ) × Store S)). x >>= finish) (areas_run m ehdr s1))

  -- `load_elf_vmas` answers an `mm_struct` with the entry point, the image, and a list of areas: one
  -- for each segment of type PT_LOAD, in the order of the program headers, with its bounds and its
  -- offset in the image, then a stack and a heap. The areas are the structures that the allocator
  -- gave, in order; no other area and no other `mm_struct` is changed. The allocator gives the
  -- structures, none of them NULL and no two areas at one address.
  pub load_elf_vmas_lem :
      (m : Memory) (ehdr mm_head a : ℕ) (addrs : List ℕ) (s : Store S) (h1 h2 : S)
      → alloc sizeof_mm s.heap ≡ ok (mm_head, h1)
      → mm_head ≢ 0
      → length (a ∷ addrs) ≡ length (segments m ehdr) + 2
      → Supplies alloc sizeof_vm_area h1 (a ∷ addrs) h2
      → AreDistinct (a ∷ addrs)
      → (t : Store S) × (load_elf_vmas alloc m ehdr s ≡ ok (mm_head, t))
        × (t.heap ≡ h2)
        × IsListed t.areas (t.mms mm_head).mmap (a ∷ addrs) (purposes m ehdr)
        × ((t.mms mm_head).e_entry ≡ (read_ehdr m ehdr).e_entry)
        × ((t.mms mm_head).elf_head ≡ ehdr)
        × ((b : ℕ) → IsApart b (a ∷ addrs) → t.areas b ≡ s.areas b)
        × ((b : ℕ) → b ≢ mm_head → t.mms b ≡ s.mms b)
  load_elf_vmas_lem m ehdr mm_head a addrs s h1 h2 run live len supply distinct =
      let (t, last, go, heap', loaded) =
        all_purposes (purposes m ehdr) a addrs (record s { heap = h1 }) h2
          (len ∙ sym (length-purposes m ehdr)) supply distinct in
      (
        with_mm m ehdr mm_head a t,
        rw (load_run m ehdr mm_head s h1 run live, go) refl,
        heap',
        rw (eq→== mm_head mm_head refl) loaded.listed,
        rw (eq→== mm_head mm_head refl) refl,
        rw (eq→== mm_head mm_head refl) refl,
        loaded.apart,
        λ b ne. rw (ne→== b mm_head ne) (ap (λ (f : ℕ → MmStruct). f b) loaded.mms),
      )
