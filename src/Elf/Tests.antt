-- ===== src/Elf/Tests.antt =====
-- An image with two program headers, of which the second is of type PT_LOAD.

use sbunix_public.Base.{ℕ, ◌+◌, ◌≡◌, ◌≢◌, arith, refl, Run, ok, [], ◌∷◌, if◌then◌else◌, length}
use sbunix_public.Memory.{Memory, store, add64}
use sbunix_public.Elf.{
  read_bytes, read_ehdr, read_phdr, phdr_at, type_stack, Store, validate_elf_header,
  validate_elf_header_from_fp, load_elf_vmas, sizeof_vm_area,
}
use sbunix_public.Elf.Tables.{IsElfText, has_magic, validate_elf_header_lem, segments, load_headers}
use sbunix_public.Elf.Areas.{Supplies, done, call, IsApart, AreDistinct, none, and, IsListed}
use sbunix_public.Elf.Load.{load_elf_vmas_lem, purposes}

-- The string "ELF" at 16, the image at 0x1000, and its program headers behind it.
abbrev text : Memory
unfolding store
text = store (store (store (λ _. 0) 16 69) 17 76) 18 70

abbrev header : Memory
unfolding store
header =
    store
      (store
        (store (store (store (store (store text 0x1000 0x7f) 0x1001 69) 0x1002 76) 0x1003 70) 0x101a
          0x40)
        0x1020 64)
      0x1038 2

abbrev pub image : Memory
unfolding store
image =
    store (store (store (store (store header 0x1040 6) 0x1078 1) 0x1081 0x10) 0x108a 0x40) 0x10a1
      0x20

text-IsElfText : IsElfText image 16
unfolding store
text-IsElfText = record {
  string = record { chars = λ i h. ground arith; end = refl };
  e = refl;
  l = refl;
  f = refl;
}

validate_elf_header_lem_example :
    (validate_elf_header 4 16 0x1000 image ≡ ok (if has_magic image 0x1000 then 1 else 0))
    × (validate_elf_header_from_fp 4 16 0x1000 image
        ≡ ok (if has_magic image (add64 0x1000 512) then 1 else 0))
validate_elf_header_lem_example =
    validate_elf_header_lem 4 image 16 0x1000 text-IsElfText (omega arith)

-- Every request gets the next 4096 bytes.
abbrev next_page : ℕ → ℕ → Run (ℕ × ℕ)
next_page size h = ok (h, h + 4096)

abbrev empty : Store ℕ
empty = record {
  heap = 0x10_0000;
  areas =
      λ _. record { vm_start = 7; vm_end = 7; vm_offset = 7; vm_next = 7; vm_type = type_stack };
  mms = λ _. record { mmap = 7; elf_head = 7; e_entry = 7 };
}

three :
    Supplies next_page sizeof_vm_area 0x10_1000 (0x10_1000 ∷ 0x10_2000 ∷ 0x10_3000 ∷ []) 0x10_4000
three =
    call 0x10_1000 (0x10_2000 ∷ 0x10_3000 ∷ []) refl (omega arith) (
      call 0x10_2000 (0x10_3000 ∷ []) refl (omega arith)
        (call 0x10_3000 [] refl (omega arith) done))

distinct : AreDistinct (0x10_1000 ∷ 0x10_2000 ∷ 0x10_3000 ∷ [])
distinct =
    and 0x10_1000 (0x10_2000 ∷ 0x10_3000 ∷ [])
      (and 0x10_2000 (0x10_3000 ∷ []) (omega arith) (and 0x10_3000 [] (omega arith) none))
      (and 0x10_2000 (0x10_3000 ∷ []) (and 0x10_3000 [] (omega arith) none)
        (and 0x10_3000 [] none none))

one_segment : 3 ≡ length (segments image 0x1000) + 2
unfolding store segments load_headers read_ehdr phdr_at read_phdr read_bytes
one_segment = refl

load_elf_vmas_lem_example :
    (t : Store ℕ) × (load_elf_vmas next_page image 0x1000 empty ≡ ok (0x10_0000, t))
    × (t.heap ≡ 0x10_4000)
    × IsListed t.areas
        (t.mms 0x10_0000).mmap
        (0x10_1000 ∷ 0x10_2000 ∷ 0x10_3000 ∷ [])
        (purposes image 0x1000)
    × ((t.mms 0x10_0000).e_entry ≡ (read_ehdr image 0x1000).e_entry)
    × ((t.mms 0x10_0000).elf_head ≡ 0x1000)
    × ((b : ℕ) → IsApart b (0x10_1000 ∷ 0x10_2000 ∷ 0x10_3000 ∷ []) → t.areas b ≡ empty.areas b)
    × ((b : ℕ) → b ≢ 0x10_0000 → t.mms b ≡ empty.mms b)
load_elf_vmas_lem_example =
    load_elf_vmas_lem next_page image 0x1000 0x10_0000 0x10_1000 (0x10_2000 ∷ 0x10_3000 ∷ []) empty
      0x10_1000 0x10_4000 refl (omega arith) one_segment three distinct
