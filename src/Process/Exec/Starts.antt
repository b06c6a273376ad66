-- ===== src/Process/Exec/Starts.antt =====
-- What `exec_new_binary` of sys/task.c needs: the areas of a program as a list that
-- `create_process` walks, and the stack pointer that follows from it.
use sbunix_public.Base.{
  ℕ, zero, suc, ◌+◌, ◌-◌, ◌<◌, ◌≡◌, ◌≢◌, refl, ap, ◌∙◌, arith, ne→==, Run, ok, List, [], ◌∷◌, ◌++◌,
  map, length, false,
}
use sbunix_public.Schedule.{Pcb}
use sbunix_public.Schedule.Queue.{Queue, has}
use sbunix_public.Elf.{
  VmAreaStruct, Purpose, segment, stack, heap, FileTypes, type_file, type_stack, type_heap,
  Elf64Phdr,
}
use sbunix_public.Elf.Areas.{area, Supplies, done, call, IsListed, end, area, IsFor}
use sbunix_public.Process.{Paging}
use sbunix_public.Process.Areas.{Wants, Walks, end as no_area, area as one_area}
use sbunix_public.Process.Mapped.{stack_of}
use sbunix_public.Process.Exec.{count_areas}

-- The purpose decides the type, and so the stack pointer.
pub stack_after : (stack_top : ℕ) → List Purpose → (pstack : ℕ) → ℕ
stack_after stack_top [] pstack = pstack
stack_after stack_top (segment phdr ∷ cs) pstack = stack_after stack_top cs pstack
stack_after stack_top (stack ∷ cs) pstack = stack_after stack_top cs (stack_top - 64)
stack_after stack_top (heap ∷ cs) pstack = stack_after stack_top cs pstack

purpose_type : Purpose → FileTypes
purpose_type (segment phdr) = type_file
purpose_type stack = type_stack
purpose_type heap = type_heap

IsFor-type : (c : Purpose) (x : VmAreaStruct) → IsFor c x → x.vm_type ≡ purpose_type c
unfolding IsFor purpose_type
IsFor-type (segment phdr) x (_, _, _, e) = e
IsFor-type stack x (_, _, e) = e
IsFor-type heap x (_, _, e) = e

pub stack_of-stack_after :
    (stack_top : ℕ) (f : ℕ → VmAreaStruct) (p : ℕ) (addrs : List ℕ) (cs : List Purpose) (pstack : ℕ)
    → IsListed f p addrs cs
    → stack_of stack_top f addrs pstack ≡ stack_after stack_top cs pstack
unfolding stack_of stack_after purpose_type
stack_of-stack_after stack_top f p [] [] pstack end = refl
stack_of-stack_after stack_top f p [] (_ ∷ cs) pstack x = elim x [ ]
stack_of-stack_after stack_top f p (q ∷ addrs) [] pstack x = elim x [ ]
stack_of-stack_after stack_top f p (q ∷ addrs) (segment phdr ∷ cs) pstack (area _ _ _ _ is rest) =
    rw (IsFor-type (segment phdr) (f p) is)
      (stack_of-stack_after stack_top f (f p).vm_next addrs cs pstack rest)
stack_of-stack_after stack_top f p (q ∷ addrs) (stack ∷ cs) pstack (area _ _ _ _ is rest) =
    rw (IsFor-type stack (f p) is)
      (stack_of-stack_after stack_top f (f p).vm_next addrs cs (stack_top - 64) rest)
stack_of-stack_after stack_top f p (q ∷ addrs) (heap ∷ cs) pstack (area _ _ _ _ is rest) =
    rw (IsFor-type heap (f p) is)
      (stack_of-stack_after stack_top f (f p).vm_next addrs cs pstack rest)

pub stack_after_segments :
    (stack_top : ℕ) (hs : List Elf64Phdr) (pstack : ℕ)
    → stack_after stack_top (map segment hs ++ (stack ∷ heap ∷ [])) pstack ≡ stack_top - 64
unfolding stack_after
stack_after_segments stack_top [] pstack = refl
stack_after_segments stack_top (h ∷ hs) pstack = stack_after_segments stack_top hs pstack

-- No address is NULL.
pub data AllLive : List ℕ → Type 0 where
  nothing : AllLive []
  and : (a : ℕ) (addrs : List ℕ) → a ≢ 0 → AllLive addrs → AllLive (a ∷ addrs)

pub Supplies-AllLive :
    {S : Type 0} (alloc : ℕ → S → Run (ℕ × S)) (size : ℕ) (h h' : S) (addrs : List ℕ)
    → Supplies alloc size h addrs h'
    → AllLive addrs
Supplies-AllLive alloc size h h' [] done = nothing
Supplies-AllLive alloc size h h' (a ∷ addrs) (call {h1} _ _ run live rest) =
    and a addrs live (Supplies-AllLive alloc size h1 h' addrs rest)

-- The loop that counts comes to an end on a list.
pub count_areas_lem :
    (fuel : ℕ) (f : ℕ → VmAreaStruct) (p count : ℕ) (addrs : List ℕ) (cs : List Purpose)
    → IsListed f p addrs cs
    → AllLive addrs
    → length addrs < fuel
    → count_areas fuel f p count ≡ ok (count + length addrs)
unfolding count_areas
count_areas_lem zero f p count addrs cs listed live enough = absurd (omega arith)
count_areas_lem (suc fuel) f p count [] [] end live enough = ap ok (omega arith)
count_areas_lem (suc fuel) f p count [] (c ∷ cs) x live enough = elim x [ ]
count_areas_lem (suc fuel) f p count (q ∷ addrs) [] x live enough = elim x [ ]
count_areas_lem (suc fuel) f p count (q ∷ addrs) (c ∷ cs) (area _ _ _ _ is rest) (and _ _ ne live)
      enough =
    rw (ne→== p 0 ne) (
      count_areas_lem fuel f (f p).vm_next (count + 1) addrs cs rest live (omega arith)
      ∙ ap ok (omega arith))

-- The queue does not see a process that is not in it.
pub Queue-others :
    (xs : List ℕ) (f g : ℕ → Pcb) (p process : ℕ)
    → has process xs ≡ false
    → ((a : ℕ) → a ≢ process → g a ≡ f a)
    → Queue f p xs
    → Queue g p xs
Queue-others [] f g p process out same q = q
Queue-others (x ∷ xs) f g p process out same (e, n, q) =
    let apart : x ≢ process = ground arith in
    let next : (g x).next ≡ (f x).next = ap (λ (c : Pcb). c.next) (same x apart) in
    (e, n, rw next (Queue-others xs f g (f x).next process (ground arith) same q))

module _ {S : Type 0} (paging : Paging S) (stack_top process_cr3 old elf_head : ℕ) where
  -- The purposes of the areas ask for what `Wants` says, whatever areas they get, from `h` to `h'`.
  pub data AllWant : List Purpose → S → S → Type 0 where
    no_more : (h h' : S) → h ≡ h' → AllWant [] h h'
    asks :
        (c : Purpose) (cs : List Purpose) (h g h' : S)
        → ((x : VmAreaStruct) → IsFor c x → Wants paging stack_top process_cr3 old elf_head x h g)
        → AllWant cs g h'
        → AllWant (c ∷ cs) h h'

  pub walks :
      (f : ℕ → VmAreaStruct) (p : ℕ) (addrs : List ℕ) (cs : List Purpose) (h h' : S)
      → IsListed f p addrs cs
      → AllLive addrs
      → AllWant cs h h'
      → Walks paging stack_top process_cr3 old elf_head f p addrs h h'
  walks f p [] [] h h' end live (no_more _ _ same) = no_area h h' same
  walks f p [] (c ∷ cs) h h' x live want = elim x [ ]
  walks f p (q ∷ addrs) [] h h' x live want = elim x [ ]
  walks f p (q ∷ addrs) (c ∷ cs) h h' (area _ _ _ _ is rest) (and _ _ ne live)
        (asks _ _ _ g _ w want) =
      one_area p addrs h g h' ne (w (f p) is) (walks f (f p).vm_next addrs cs g h' rest live want)
