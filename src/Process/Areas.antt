-- ===== src/Process/Areas.antt =====
-- The loop of `create_process` of sys/task.c over the areas of a process.
use sbunix_public.Base.{
  ℕ, ◌+◌, ◌-◌, ◌*◌, ◌%◌, ◌^◌, ◌<◌, ◌≡◌, ◌≢◌, refl, sym, ap, ◌∙◌, ok, some, List, [], ◌∷◌,
}
use sbunix_public.Memory.{add64, sub64}
use sbunix_public.Paging.Address.{page_align, round_up}
use sbunix_public.Elf.{VmAreaStruct, type_file, type_stack, type_heap}
use sbunix_public.Process.{Paging, sizeof_pcb}

-- An area keeps its type and its successor, and one of a segment keeps all.
pub record Keeps (x y : VmAreaStruct) : Type 0 where
  pub next : y.vm_next ≡ x.vm_next
  pub type : y.vm_type ≡ x.vm_type
  pub file : x.vm_type ≡ type_file → y ≡ x

pub Keeps-same : (x : VmAreaStruct) → Keeps x x
Keeps-same x = record { next = refl; type = refl; file = λ e. refl }

pub Keeps-then : (x y z : VmAreaStruct) → Keeps x y → Keeps y z → Keeps x z
Keeps-then x y z a b = record {
  next = b.next ∙ a.next;
  type = b.type ∙ a.type;
  file = λ e. b.file (a.type ∙ e) ∙ a.file e;
}

module _ {S : Type 0} (paging : Paging S) where
  -- CR3 holds what is loaded into it.
  abbrev pub HasCr3 : Type 0
  HasCr3 = (cr3 : ℕ) (h : S) → paging.get_cr3 (paging.set_cr3 cr3 h) ≡ cr3

  -- The calls that a new process begins with, from `h` to `h'`: its structure is at `process`, and
  -- its tables begin with the page `page`.
  pub record IsMade (process page : ℕ) (h h' : S) : Type 0 where
    pub given : S
    pub result : ℕ
    pub structure : paging.kmalloc_user sizeof_pcb h ≡ ok (process, given)
    pub live : process ≢ 0
    pub page_given : (paging.get_next_free_page_kmalloc given).0 ≡ page
    pub tables :
        paging.create_new_user_pml4 page (paging.get_next_free_page_kmalloc given).1
        ≡ ok (result, h')
    pub cr3 : paging.get_cr3 h' ≡ paging.get_cr3 h

  module _ (stack_top process_cr3 old elf_head : ℕ) where
    -- What an area asks of paging, from `h` to `h'`: the pages of a segment are mapped, and the bytes
    -- that are copied; a stack has its page, with the byte that is read.
    pub data Wants (x : VmAreaStruct) (h h' : S) : Type 0 where
      file :
          (start n offset : ℕ) (g : S)
          → x.vm_type ≡ type_file
          → start ≡ page_align x.vm_start
          → n ≡ round_up (sub64 x.vm_end start)
          → offset ≡ add64 elf_head (8 * x.vm_offset % 2 ^ 64)
          → 2 < n
          → start + n < 2 ^ 64
          → offset + n < 2 ^ 64
          → paging.kmalloc_top_virtual_address_user n start (paging.set_cr3 process_cr3 h)
            ≡ ok (start, g)
          → ((i : ℕ) → i < n → (a : ℕ) × (paging.translated g (start + i) ≡ some a))
          → ((i : ℕ) → i < n → (a : ℕ) × (paging.translated g (offset + i) ≡ some a))
          → paging.set_cr3 old g ≡ h'
          → Wants x h h'
      stack :
          (v p : ℕ) (g : S)
          → x.vm_type ≡ type_stack
          → paging.paging_user_stack_top h ≡ stack_top
          → paging.kmalloc_top_virtual_address_user 4096
              (stack_top + 8 - 4096)
              (paging.set_cr3 process_cr3 h)
            ≡ ok (v, g)
          → paging.translated g (stack_top - 64 - 800) ≡ some p
          → paging.set_cr3 old g ≡ h'
          → Wants x h h'
      heap : x.vm_type ≡ type_heap → h ≡ h' → Wants x h h'

    pub Wants-cr3 :
        (x : VmAreaStruct) (h h' : S)
        → HasCr3
        → paging.get_cr3 h ≡ old
        → Wants x h h'
        → paging.get_cr3 h' ≡ old
    Wants-cr3 x h h' law same (file start n offset g _ _ _ _ _ _ _ _ _ _ back) =
        ap paging.get_cr3 (sym back) ∙ law old g
    Wants-cr3 x h h' law same (stack v p g _ _ _ _ back) = ap paging.get_cr3 (sym back) ∙ law old g
    Wants-cr3 x h h' law same (heap _ back) = ap paging.get_cr3 (sym back) ∙ same

    -- The areas from `p` on, with what each of them asks for.
    pub data Walks (f : ℕ → VmAreaStruct) : ℕ → List ℕ → S → S → Type 0 where
      end : (h h' : S) → h ≡ h' → Walks f 0 [] h h'
      area :
          (p : ℕ) (addrs : List ℕ) (h g h' : S)
          → p ≢ 0
          → Wants (f p) h g
          → Walks f (f p).vm_next addrs g h'
          → Walks f p (p ∷ addrs) h h'

    Wants-kept : (x y : VmAreaStruct) (h h' : S) → Keeps x y → Wants x h h' → Wants y h h'
    Wants-kept x y h h' k (file start n offset g type a b c d e l run at image back) =
        coe 0 1 (i. Wants (sym (k.file type) i) h h')
          (file start n offset g type a b c d e l run at image back)
    Wants-kept x y h h' k (stack v p g type top run at back) =
        stack v p g (k.type ∙ type) top run at back
    Wants-kept x y h h' k (heap type back) = heap (k.type ∙ type) back

    pub Walks-kept :
        (f g : ℕ → VmAreaStruct) (p : ℕ) (addrs : List ℕ) (h h' : S)
        → ((a : ℕ) → Keeps (f a) (g a))
        → Walks f p addrs h h'
        → Walks g p addrs h h'
    Walks-kept f g p [] h h' k (end _ _ same) = end h h' same
    Walks-kept f g p (q ∷ addrs) h h' k (area _ _ _ h1 _ live wants rest) =
        area p addrs h h1 h' live (Wants-kept (f p) (g p) h h1 (k p) wants) (
          coe 0 1 (i. Walks g (sym (k p).next i) addrs h1 h')
            (Walks-kept f g (f p).vm_next addrs h1 h' k rest))

    pub Walks-cr3 :
        (f : ℕ → VmAreaStruct) (p : ℕ) (addrs : List ℕ) (h h' : S)
        → HasCr3
        → paging.get_cr3 h ≡ old
        → Walks f p addrs h h'
        → paging.get_cr3 h' ≡ old
    Walks-cr3 f p [] h h' law same (end _ _ back) = ap paging.get_cr3 (sym back) ∙ same
    Walks-cr3 f p (q ∷ addrs) h h' law same (area _ _ _ h1 _ live wants rest) =
        Walks-cr3 f (f p).vm_next addrs h1 h' law (Wants-cr3 (f p) h h1 law same wants) rest
