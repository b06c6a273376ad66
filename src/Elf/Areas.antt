-- ===== src/Elf/Areas.antt =====
-- `load_elf_vmas` of sys/elf64.c: the areas of a process are its segments, a stack and a heap.
use sbunix_public.Base.{
  ℕ, ◌≡◌, ◌≢◌, refl, sym, ap, ◌∙◌, Run, ok, ◌>>=◌, eq→==, ne→==, List, [], ◌∷◌, length, arith,
}
use sbunix_public.Memory.{add64}
use sbunix_public.Elf.{
  type_file, type_stack, type_heap, VmAreaStruct, Store, Purpose, segment, stack, heap, fill,
  put_area, new_struct, sizeof_vm_area, next_area,
}

-- Calls of the allocator for one size answer the addresses one after the other.
pub data Supplies {S : Type 0} (alloc : ℕ → S → Run (ℕ × S)) (size : ℕ)
    : S → List ℕ → S → Type 0 where
  done : {h : S} → Supplies alloc size h [] h
  call :
      {h h1 h2 : S} (a : ℕ) (addrs : List ℕ)
      → alloc size h ≡ ok (a, h1)
      → a ≢ 0
      → Supplies alloc size h1 addrs h2
      → Supplies alloc size h (a ∷ addrs) h2

pub data IsApart (b : ℕ) : List ℕ → Type 0 where
  none : IsApart b []
  and : (a : ℕ) (addrs : List ℕ) → b ≢ a → IsApart b addrs → IsApart b (a ∷ addrs)

pub data AreDistinct : List ℕ → Type 0 where
  none : AreDistinct []
  and : (a : ℕ) (addrs : List ℕ) → IsApart a addrs → AreDistinct addrs → AreDistinct (a ∷ addrs)

-- What an area for a purpose holds.
unfoldable pub IsFor : Purpose → VmAreaStruct → Type 0
IsFor (segment h) x =
    (x.vm_start ≡ h.p_vaddr)
    × (x.vm_end ≡ add64 h.p_vaddr h.p_memsz)
    × (x.vm_offset ≡ h.p_offset)
    × (x.vm_type ≡ type_file)
IsFor stack x = (x.vm_start ≡ 0) × (x.vm_end ≡ 0) × (x.vm_type ≡ type_stack)
IsFor heap x = (x.vm_start ≡ 0) × (x.vm_end ≡ 0) × (x.vm_type ≡ type_heap)

-- The list from `p` on is made of the areas at `addrs`, for the purposes in order.
pub data IsListed (f : ℕ → VmAreaStruct) : ℕ → List ℕ → List Purpose → Type 0 where
  end : IsListed f 0 [] []
  area :
      (p : ℕ) (addrs : List ℕ) (c : Purpose) (cs : List Purpose)
      → IsFor c (f p)
      → IsListed f (f p).vm_next addrs cs
      → IsListed f p (p ∷ addrs) (c ∷ cs)

pub IsFor-fill :
    (c : Purpose) (x : VmAreaStruct) (n : ℕ) → IsFor c (record (fill c x) { vm_next = n })
unfolding IsFor fill
IsFor-fill (segment h) x n = (refl, refl, refl, refl)
IsFor-fill stack x n = (refl, refl, refl)
IsFor-fill heap x n = (refl, refl, refl)

IsFor-next :
    (c : Purpose) (x : VmAreaStruct) (n : ℕ) → IsFor c x → IsFor c (record x { vm_next = n })
unfolding IsFor
IsFor-next (segment h) x n is = is
IsFor-next stack x n is = is
IsFor-next heap x n is = is

pub put_area_same : (f : ℕ → VmAreaStruct) (a : ℕ) (x : VmAreaStruct) → put_area f a x a ≡ x
unfolding put_area
put_area_same f a x = rw (eq→== a a refl) refl

pub put_area_other :
    (f : ℕ → VmAreaStruct) (a : ℕ) (x : VmAreaStruct) (b : ℕ) → b ≢ a → put_area f a x b ≡ f b
unfolding put_area
put_area_other f a x b ne = rw (ne→== b a ne) refl

module _ {S : Type 0} (alloc : ℕ → S → Run (ℕ × S)) where
  -- Areas behind the last one, for one purpose after the other.
  unfoldable pub next_areas : List Purpose → ℕ × ℕ → Store S → Run ((ℕ × ℕ) × Store S)
  next_areas [] vma s = ok (vma, s)
  next_areas (c ∷ cs) vma s = next_area alloc c vma s >>= λ r. next_areas cs r.0 r.1

  -- What such a run makes of a list whose last area is `next`.
  pub record IsAppended (s t : Store S) (next : ℕ) (addrs : List ℕ) (cs : List Purpose)
      : Type 0 where
    pub mms : t.mms ≡ s.mms
    pub kept : (c : Purpose) → IsFor c (s.areas next) → IsFor c (t.areas next)
    pub listed : IsListed t.areas (t.areas next).vm_next addrs cs
    pub apart : (b : ℕ) → b ≢ next → IsApart b addrs → t.areas b ≡ s.areas b

  -- The store behind one more area.
  abbrev pub appended : Purpose → (next a : ℕ) → S → Store S → Store S
  appended c next a h s =
      let linked = put_area s.areas next (record (s.areas next) { vm_next = a }) in
      record s { heap = h; areas = put_area linked a (record (fill c (linked a)) { vm_next = 0 }) }

  appended_last :
      (c : Purpose) (next a : ℕ) (h : S) (s : Store S)
      → ((appended c next a h s).areas a).vm_next ≡ 0
  appended_last c next a h s = ap (λ (x : VmAreaStruct). x.vm_next) (put_area_same _ a _)

  untouched :
      (c : Purpose) (next a : ℕ) (h : S) (s t : Store S) (addrs : List ℕ) (b : ℕ)
      → b ≢ next
      → ((b' : ℕ) → b' ≢ a → IsApart b' addrs → t.areas b' ≡ (appended c next a h s).areas b')
      → IsApart b (a ∷ addrs)
      → t.areas b ≡ s.areas b
  untouched c next a h s t addrs b bne apart (and _ _ ne rest) =
      apart b ne rest
      ∙ put_area_other (put_area s.areas next (record (s.areas next) { vm_next = a })) a _ b ne
      ∙ put_area_other s.areas next _ b bne

  IsAppended-step :
      (c : Purpose) (cs : List Purpose) (addrs : List ℕ) (next a : ℕ) (h : S) (s t : Store S)
      → next ≢ a
      → IsApart next addrs
      → IsAppended (appended c next a h s) t a addrs cs
      → IsAppended s t next (a ∷ addrs) (c ∷ cs)
  IsAppended-step c cs addrs next a h s t ne apart app =
      let linked = put_area s.areas next (record (s.areas next) { vm_next = a }) in
      let filled = record (fill c (linked a)) { vm_next = 0 } in
      let at : t.areas next ≡ record (s.areas next) { vm_next = a } =
        app.apart next ne apart
        ∙ put_area_other linked a filled next ne
        ∙ put_area_same s.areas next (record (s.areas next) { vm_next = a }) in
      let to : (t.areas next).vm_next ≡ a = ap (λ (x : VmAreaStruct). x.vm_next) at in
      let here : IsFor c (put_area linked a filled a) =
        coe 0 1 (i. IsFor c (sym (put_area_same linked a filled) i)) (IsFor-fill c (linked a) 0) in
      record {
        mms = app.mms;
        kept = λ c' is. coe 0 1 (i. IsFor c' (sym at i)) (IsFor-next c' (s.areas next) a is);
        listed =
            coe 0 1 (i. IsListed t.areas (sym to i) (a ∷ addrs) (c ∷ cs))
              (area a addrs c cs (app.kept c here) app.listed);
        apart = λ b bne e. untouched c next a h s t addrs b bne app.apart e;
      }

  pub next_areas_lem :
      (cs : List Purpose) (addrs : List ℕ) (vma_head next : ℕ) (s : Store S) (h : S)
      → length addrs ≡ length cs
      → Supplies alloc sizeof_vm_area s.heap addrs h
      → IsApart next addrs
      → AreDistinct addrs
      → (s.areas next).vm_next ≡ 0
      → (t : Store S) × (last : ℕ) × (next_areas cs (vma_head, next) s ≡ ok ((vma_head, last), t))
        × (t.heap ≡ h)
        × IsAppended s t next addrs cs
  unfolding next_areas next_area new_struct
  next_areas_lem [] [] vma_head next s h len done apart distinct last = (
    s,
    next,
    refl,
    refl,
    record {
      mms = refl;
      kept = λ c is. is;
      listed = coe 0 1 (i. IsListed s.areas (sym last i) [] []) end;
      apart = λ b ne e. refl;
    },
  )
  next_areas_lem [] (a ∷ addrs) vma_head next s h len supply apart distinct last =
      absurd (omega arith)
  next_areas_lem (c ∷ cs) [] vma_head next s h len supply apart distinct last = absurd (omega arith)
  next_areas_lem (c ∷ cs) (a ∷ addrs) vma_head next s h len (call {h1} _ _ run live supply)
        (and _ _ ne apart) (and _ _ first distinct) last =
      let s1 = appended c next a h1 s in
      let (t, end', go, heap', app) =
        next_areas_lem cs addrs vma_head a s1 h (omega arith) supply first distinct
          (appended_last c next a h1 s) in
      (
        t,
        end',
        rw (run, ne→== a 0 live) go,
        heap',
        IsAppended-step c cs addrs next a h1 s t ne apart app,
      )
