-- ===== src/Elf.antt =====
-- sys/elf64.c: the tests on an ELF image, and the list of memory areas that a process gets from it.
-- The image is in byte memory; `Elf64_Ehdr` and `Elf64_Phdr` of include/sys/elf64.h are read from it
-- at the offsets of their fields. What `kprintf` shows is left out.
pub mod Tables
pub mod Areas
pub mod Load
pub mod Heap
mod Tests
use sbunix_public.Base.{ℕ, zero, suc, ◌+◌, ◌*◌, Run, ok, ◌>>=◌, fault, ◌==◌, if◌then◌else◌}
use sbunix_public.Memory.{Memory, add64}
use sbunix_public.Strings.{Comparison, less, equal, greater, strsubcmp}

-- `size` bytes at `a`, the lowest first.
unfoldable pub read_bytes : Memory → (a size : ℕ) → ℕ
read_bytes m a zero = 0
read_bytes m a (suc size) = m a + 256 * read_bytes m (a + 1) size

pub record Elf64Ehdr : Type 0 where
  pub e_entry : ℕ
  pub e_phoff : ℕ
  pub e_phnum : ℕ

pub record Elf64Phdr : Type 0 where
  pub p_type : ℕ
  pub p_offset : ℕ
  pub p_vaddr : ℕ
  pub p_memsz : ℕ

unfoldable pub read_ehdr : Memory → ℕ → Elf64Ehdr
read_ehdr m ehdr = record {
  e_entry = read_bytes m (ehdr + 24) 8;
  e_phoff = read_bytes m (ehdr + 32) 8;
  e_phnum = read_bytes m (ehdr + 56) 2;
}

unfoldable pub read_phdr : Memory → ℕ → Elf64Phdr
read_phdr m phdr = record {
  p_type = read_bytes m phdr 4;
  p_offset = read_bytes m (phdr + 8) 8;
  p_vaddr = read_bytes m (phdr + 16) 8;
  p_memsz = read_bytes m (phdr + 40) 8;
}

abbrev pub pt_load : ℕ
pt_load = 1

-- `((Elf64_Phdr *)(((uint64_t)ehdr) + ehdr->e_phoff)) + i`
unfoldable pub phdr_at : Memory → (ehdr i : ℕ) → Elf64Phdr
phdr_at m ehdr i = read_phdr m (add64 (add64 ehdr (read_ehdr m ehdr).e_phoff) (56 * i))

-- `strsubcmp(...) == 0`
abbrev pub is_same : Comparison → ℕ
is_same equal = 1
is_same less = 0
is_same greater = 0

-- `elf` is where the string "ELF" of the source stands.
unfoldable pub validate_elf_header : ℕ → (elf ehdr : ℕ) → Memory → Run ℕ
validate_elf_header fuel elf ehdr m =
    if m ehdr == 0x7f then (strsubcmp fuel elf ehdr 1 4 m >>= λ c. ok (is_same c)) else ok 0

abbrev pub sizeof_posix_header : ℕ
sizeof_posix_header = 512

-- `file_data` is the `data` of the file.
unfoldable pub validate_elf_header_from_fp : ℕ → (elf file_data : ℕ) → Memory → Run ℕ
validate_elf_header_from_fp fuel elf file_data m =
    validate_elf_header fuel elf (add64 file_data sizeof_posix_header) m

-- The loop of `check_elf_loadable` from header `i` on, with `left` headers to go.
unfoldable pub loadable_from : Memory → (ehdr i left : ℕ) → ℕ
loadable_from m ehdr i zero = 0
loadable_from m ehdr i (suc left) =
    if (phdr_at m ehdr i).p_type == pt_load then 1 else loadable_from m ehdr (i + 1) left

unfoldable pub check_elf_loadable : Memory → ℕ → ℕ
check_elf_loadable m ehdr = loadable_from m ehdr 0 (read_ehdr m ehdr).e_phnum

unfoldable pub check_elf_loadable_from_fp : Memory → ℕ → ℕ
check_elf_loadable_from_fp m file_data = check_elf_loadable m (add64 file_data sizeof_posix_header)

pub data FileTypes : Type 0 where
  type_file type_stack type_heap : FileTypes

pub record VmAreaStruct : Type 0 where
  pub vm_start : ℕ
  pub vm_end : ℕ
  pub vm_offset : ℕ
  pub vm_next : ℕ
  pub vm_type : FileTypes

pub record MmStruct : Type 0 where
  pub mmap : ℕ
  pub elf_head : ℕ
  pub e_entry : ℕ

-- The structures by their addresses, and the state of the allocator.
pub record Store (S : Type 0) : Type 0 where
  pub heap : S
  pub areas : ℕ → VmAreaStruct
  pub mms : ℕ → MmStruct

-- What an area is made for, and the fields that are then written, `vm_next` apart.
pub data Purpose : Type 0 where
  segment : Elf64Phdr → Purpose
  stack heap : Purpose

unfoldable pub fill : Purpose → VmAreaStruct → VmAreaStruct
fill (segment phdr) x = record x {
  vm_start = phdr.p_vaddr;
  vm_end = add64 phdr.p_vaddr phdr.p_memsz;
  vm_type = type_file;
  vm_offset = phdr.p_offset;
}
fill stack x = record x { vm_start = 0; vm_end = 0; vm_type = type_stack }
fill heap x = record x { vm_start = 0; vm_end = 0; vm_type = type_heap }

unfoldable pub put_area : (ℕ → VmAreaStruct) → ℕ → VmAreaStruct → ℕ → VmAreaStruct
put_area f a x b = if b == a then x else f b

abbrev pub sizeof_vm_area : ℕ
sizeof_vm_area = 56

abbrev pub sizeof_mm : ℕ
sizeof_mm = 176

module _ {S : Type 0} (kmalloc_user : ℕ → S → Run (ℕ × S)) where
  -- `p = (struct ... *)kmalloc_user(sizeof(struct ...))`; the fields that are written behind it fault
  -- if there was no memory.
  unfoldable pub new_struct : ℕ → Store S → Run (ℕ × Store S)
  new_struct size s = do
    (p, h) ← kmalloc_user size s.heap
    (if p == 0 then fault else ok (p, record s { heap = h }))

  -- The first area: it is the head and the last.
  unfoldable pub first_area : Purpose → Store S → Run ((ℕ × ℕ) × Store S)
  first_area c s = do
    (a, s') ← new_struct sizeof_vm_area s
    ok (
      (a, a),
      record s' { areas = put_area s'.areas a (record (fill c (s'.areas a)) { vm_next = 0 }) },
    )

  -- A further area behind the last one, `vma_next`.
  unfoldable pub next_area : Purpose → ℕ × ℕ → Store S → Run ((ℕ × ℕ) × Store S)
  next_area c (vma_head, vma_next) s = do
    (a, s') ← new_struct sizeof_vm_area s
    (let linked = put_area s'.areas vma_next (record (s'.areas vma_next) { vm_next = a }) in
        ok (
          (vma_head, a),
          record s' { areas = put_area linked a (record (fill c (linked a)) { vm_next = 0 }) },
        ))

  unfoldable pub add_area : Purpose → ℕ × ℕ → Store S → Run ((ℕ × ℕ) × Store S)
  add_area c (vma_head, vma_next) s =
      if vma_head == 0 then first_area c s else next_area c (vma_head, vma_next) s

  -- The loop over the program headers, from header `i` on.
  unfoldable pub load_segments :
      Memory → (ehdr i left : ℕ) → ℕ × ℕ → Store S → Run ((ℕ × ℕ) × Store S)
  load_segments m ehdr i zero vma s = ok (vma, s)
  load_segments m ehdr i (suc left) vma s =
      let phdr = phdr_at m ehdr i in
      let next = λ (vma' : ℕ × ℕ) (s' : Store S). load_segments m ehdr (i + 1) left vma' s' in
      if phdr.p_type == pt_load
      then (add_area (segment phdr) vma s >>= λ r. next r.0 r.1)
      else next vma s

  unfoldable pub load_elf_vmas : Memory → ℕ → Store S → Run (ℕ × Store S)
  load_elf_vmas m ehdr s = do
    (mm_head, s1) ← new_struct sizeof_mm s
    (vma, s2) ← load_segments m ehdr 0 (read_ehdr m ehdr).e_phnum (0, 0) s1
    (vma', s3) ← (if vma.0 == 0 then first_area stack s2 else next_area stack vma s2)
    (vma'', s4) ← next_area heap vma' s3
    (let mm = record (s4.mms mm_head) {
      mmap = vma''.0;
      elf_head = ehdr;
      e_entry = (read_ehdr m ehdr).e_entry;
    } in
        ok (mm_head, record s4 { mms = λ b. if b == mm_head then mm else s4.mms b }))
