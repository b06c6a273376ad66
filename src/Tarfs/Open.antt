-- ===== src/Tarfs/Open.antt =====
-- Files opened from the archive in sys/tarfs.c, and its search for the contents of a file. The
-- allocator is an argument.
use sbunix_public.Base.{
  ℕ, zero, suc, ◌+◌, ◌%◌, ◌^◌, ◌≡◌, ap, Run, ok, fault, out_of_fuel, ◌>>=◌, ◌==◌, leb,
  if◌then◌else◌, List, ◌++◌, ◌<◌, arith,
}
use sbunix_public.Memory.{Memory, add64, sub64}
use sbunix_public.Math.{sign_extend, oct2bin}
use sbunix_public.Tarfs.{same_name, read_string, root_directory_name, next_offset, traverse_tarfs}

-- `struct file` of include/sys/file.h.
pub record File : Type 0 where
  pub file_count : ℕ
  pub flag : ℕ
  pub file_offset : ℕ
  pub file_size : ℕ
  pub file_error : ℕ
  pub file_data : ℕ

abbrev pub sizeof_file : ℕ
sizeof_file = 48

abbrev pub read_only : ℕ
read_only = 0

-- What a file for the header at `p` holds.
pub file_of : Memory → ℕ → File
file_of m p = record {
  file_data = p;
  file_size = sign_extend (oct2bin m (p + 124) 11);
  file_offset = add64 p 512;
  file_error = 0;
  flag = read_only;
  file_count = 1;
}

module _ {S : Type 0} (kmalloc : ℕ → S → Run (ℕ × S)) where
  -- The structures by their addresses, and the state of the allocator.
  abbrev pub Files : Type 0
  Files = S × (ℕ → File)

  pub open_tarfs : Memory → ℕ → Files → Run (ℕ × Files)
  open_tarfs m p (h, files) = kmalloc sizeof_file h >>= λ (a, h').
      let opened = λ (b : ℕ). if b == a then file_of m p else files b in
      ok (if a == 0 then (0, (h', files)) else (a, (h', opened)))

  pub open_tarfs_from_elf : Memory → ℕ → Files → Run (ℕ × Files)
  open_tarfs_from_elf m elfh files = open_tarfs m (sub64 elfh 512) files

  -- The image that `get_elf` answers for a header opens the file of that header.
  open_tarfs_from_elf_lem :
      (m : Memory) (p : ℕ) (files : Files)
      → p < 2 ^ 64
      → open_tarfs_from_elf m (add64 p 512) files ≡ open_tarfs m p files
  unfolding open_tarfs_from_elf
  open_tarfs_from_elf_lem m p files small = ap (λ (q : ℕ). open_tarfs m q files) (omega arith)

-- The name at the header is printed before the test for NULL.
pub get_tarfs : (fuel strings : ℕ) → Memory → (start end : ℕ) → List ℕ → Run ℕ
get_tarfs fuel strings m start end filename =
    traverse_tarfs fuel strings m start end filename >>= λ p. if p == 0 then fault else ok p

-- The loop of `test_offset`; the test is on the header of the round before.
pub test_from : (fuel strings : ℕ) → Memory → (start end : ℕ) → List ℕ → (p offset : ℕ) → Run ℕ
test_from zero strings m start end filename p offset = out_of_fuel
test_from (suc fuel) strings m start end filename p offset =
    let p' = add64 start offset in
    let offset' = next_offset offset (sign_extend (oct2bin m (p' + 124) 11)) in
    let rest = test_from fuel strings m start end filename p' offset' in
    let test = λ (name : List ℕ).
      if same_name (root_directory_name ++ name) filename
      then ok ((offset + 512) % 2 ^ 32)
      else rest in
    if leb p end then (read_string strings m p' >>= test) else ok 0

pub test_offset : (fuel strings : ℕ) → Memory → (start end : ℕ) → List ℕ → Run ℕ
test_offset fuel strings m start end filename =
    test_from fuel strings m start end filename start 512
