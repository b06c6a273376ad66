-- ===== src/Tarfs.antt =====
-- sys/tarfs.c: the table of the files in the archive that the kernel carries. A name is the list of
-- its bytes before the end mark: `strcpy` copies it, `strrevcat` puts it behind another, and `strcmp`
-- is 0 for equal names, as Strings shows. What `kprintf` shows is left out. `root_directory` is the constant "" of the
-- source, one byte long, and its code writes whole names there: `room` is how many bytes from it on
-- the linker leaves for nothing else, and a write behind them is a fault.
pub mod Names
pub mod Parent
pub mod Lookup
pub mod Init
pub mod Find
pub mod Open
mod Tests
use sbunix_public.Base.{
  ℕ, zero, suc, ◌+◌, ◌-◌, ◌*◌, ◌/◌, ◌%◌, ◌^◌, Run, ok, fault, out_of_fuel, ◌>>=◌, ◌==◌, ltb, leb,
  if◌then◌else◌, Bool, true, false, ◌&&◌, ◌||◌, List, [], ◌∷◌, ◌++◌, length, take, get_or,
}
use sbunix_public.Memory.{Memory, add64}
use sbunix_public.Math.{sign_extend, oct2bin}

pub record Tarfs : Type 0 where
  pub name : List ℕ
  pub parent : ℕ
  pub size : ℕ
  pub type : ℕ
  pub address : ℕ
  pub index : ℕ
  pub offset : ℕ

-- `tarfs vfs[2048]` and `vfs_pointer`
pub record Vfs : Type 0 where
  pub slots : ℕ → Tarfs
  pub vfs_pointer : ℕ

abbrev pub vfs_size : ℕ
vfs_size = 2048

-- -1 and -2 as an `int`
abbrev pub minus_1 : ℕ
minus_1 = 2 ^ 32 - 1

abbrev pub minus_2 : ℕ
minus_2 = 2 ^ 32 - 2

-- `strcmp(a, b) == 0`
unfoldable pub same_name : List ℕ → List ℕ → Bool
same_name [] [] = true
same_name [] (y ∷ ys) = false
same_name (x ∷ xs) [] = false
same_name (x ∷ xs) (y ∷ ys) = (x == y) && same_name xs ys

-- The bytes from `a` up to the first 0.
unfoldable pub read_string : ℕ → Memory → ℕ → Run (List ℕ)
read_string zero m a = out_of_fuel
read_string (suc fuel) m a =
    let rest = read_string fuel m (a + 1) in
    if m a == 0 then ok [] else (rest >>= λ s. ok (m a ∷ s))

-- A write behind the table, or of a name of more than 127 bytes, is a fault.
unfoldable pub assign_vfs_slot :
    (nindex : ℕ) → List ℕ → (nparent nsize ntype naddress noffset : ℕ) → Vfs → Run Vfs
assign_vfs_slot nindex nname nparent nsize ntype naddress noffset v =
    let slot : Tarfs = record {
      name = nname;
      parent = nparent;
      size = nsize;
      type = ntype;
      address = naddress;
      index = nindex;
      offset = noffset;
    } in
    if leb vfs_size nindex || leb 128 (length nname)
    then fault
    else ok (record v { slots = λ j. if j == nindex then slot else v.slots j })

abbrev pub slash : ℕ
slash = 47

-- `for (i = length - 1; i >= 0 && slice_count; i--)`, for `i + 1` in place of `i`.
unfoldable pub back_over : List ℕ → (i slice_count : ℕ) → ℕ
back_over file_name zero slice_count = zero
back_over file_name (suc i) zero = suc i
back_over file_name (suc i) (suc slices) =
    if get_or file_name i 0 == slash
    then back_over file_name i slices
    else back_over file_name i (suc slices)

-- `for (i = 0; i < vfs_pointer; i++)` up to the first slot of that name, with `left` slots to go.
unfoldable pub find_slot : Vfs → List ℕ → (i left : ℕ) → ℕ
find_slot v fname i zero = minus_2
find_slot v fname i (suc left) =
    if same_name fname (v.slots i).name then i else find_slot v fname (i + 1) left

-- The loop goes back to the slash in front of the last part of the name, or, for a `slice_count` of
-- 2, of the last but one, and the name up to it is looked up.
unfoldable pub parent_slot : List ℕ → (slice_count : ℕ) → Vfs → ℕ
parent_slot file_name slice_count v =
    let i = back_over file_name (length file_name) slice_count in
    if (slice_count == 1) || (slice_count == 2)
    then find_slot v (take (i + 1) file_name) 0 v.vfs_pointer
    else (if i == 0 then minus_1 else find_slot v (take i file_name) 0 v.vfs_pointer)

-- The length of that part of the name.
unfoldable pub parent_length : List ℕ → (slice_count : ℕ) → ℕ
parent_length file_name slice_count =
    let i = back_over file_name (length file_name) slice_count in
    if (slice_count == 1) || (slice_count == 2) then i + 1 else i

-- It is copied to `char fname[128]`, with its end mark.
unfoldable pub get_parent_index : List ℕ → (slice_count : ℕ) → Vfs → Run ℕ
get_parent_index file_name slice_count v =
    if leb 128 (parent_length file_name slice_count)
    then fault
    else ok (parent_slot file_name slice_count v)

-- "/rootfs/"
abbrev pub root_directory_name : List ℕ
root_directory_name = 47 ∷ 114 ∷ 111 ∷ 111 ∷ 116 ∷ 102 ∷ 115 ∷ 47 ∷ []

-- `offset` behind a file of this size and its header.
unfoldable pub next_offset : (offset file_size : ℕ) → ℕ
next_offset offset file_size =
    if (file_size == 0) || (file_size % 512 == 0)
    then (offset + (file_size + 512)) % 2 ^ 32
    else (offset + (file_size + (512 - file_size % 512) + 512)) % 2 ^ 32

-- The `switch` on the type flag: '0' is a file and '5' a directory.
unfoldable pub enter_file :
    (file_name : List ℕ) → (size typeflag address offset : ℕ) → Vfs → Run Vfs
enter_file file_name size typeflag address offset v =
    let assign = λ (parent_index : ℕ).
      assign_vfs_slot v.vfs_pointer file_name parent_index size typeflag address offset v >>= λ v'.
      ok (record v' { vfs_pointer = v'.vfs_pointer + 1 }) in
    let enter = λ (slices : ℕ). get_parent_index file_name slices v >>= assign in
    if typeflag == 48 then enter 1 else (if typeflag == 53 then enter 2 else ok v)

-- How many headers further the next one stands, as the 32 bits of an `int`.
unfoldable pub file_number : (size typeflag : ℕ) → ℕ
file_number size typeflag =
    ((size + 511) % 2 ^ 64 / 512 + 1 + (if typeflag == 0 then 1 else 0)) % 2 ^ 32

-- The loop of `tarfs_init`, from the header at `p` on.
unfoldable pub init_files : (fuel strings room : ℕ) → Memory → (end p offset : ℕ) → Vfs → Run Vfs
init_files zero strings room m end p offset v = out_of_fuel
init_files (suc fuel) strings room m end p offset v =
    let size = sign_extend (oct2bin m (p + 124) 11) in
    let typeflag = m (p + 156) in
    let offset' = next_offset offset size in
    let go_on = λ (v' : Vfs).
      init_files fuel strings room m end (add64 p (512 * sign_extend (file_number size typeflag)))
        offset' v' in
    let enter = λ (name : List ℕ).
      enter_file (root_directory_name ++ name) size typeflag (add64 p size) offset' v >>= go_on in
    let whole = λ (name : List ℕ). length (root_directory_name ++ name) in
    let guarded = λ (name : List ℕ).
      if leb room (whole name) || leb 128 (whole name) then fault else enter name in
    let step = λ (name : List ℕ). if length name == 0 then ok v else guarded name in
    if ltb p end then (read_string strings m p >>= step) else ok v

unfoldable pub tarfs_init : (fuel strings room : ℕ) → Memory → (start end : ℕ) → Vfs → Run Vfs
tarfs_init fuel strings room m start end v = do
  v1 ← assign_vfs_slot 0 (slash ∷ []) minus_1 0 5 0 0 v
  v2 ← assign_vfs_slot 1 root_directory_name 0 0 5 0 512 v1
  init_files fuel strings room m end start 512 (record v2 { vfs_pointer = 2 })

-- `while (strcmp(vfs[index].name, filename) != 0 && index < vfs_pointer) index++;` with `left` slots
-- to go. The name is read before the test: behind the table that is a fault.
unfoldable pub search : Vfs → List ℕ → (index left : ℕ) → Run ℕ
search v filename index zero = if leb vfs_size index then fault else ok index
search v filename index (suc left) =
    let rest = search v filename (index + 1) left in
    if leb vfs_size index
    then fault
    else (if same_name (v.slots index).name filename then ok index else rest)

unfoldable pub tar_lookup : List ℕ → Vfs → Run ℕ
tar_lookup filename v = search v filename 0 v.vfs_pointer >>= λ index.
    ok (if ltb index v.vfs_pointer then (v.slots index).address else 0)

unfoldable pub tar_get_index : List ℕ → Vfs → Run ℕ
tar_get_index filename v = search v filename 0 v.vfs_pointer >>= λ index.
    ok (if ltb index v.vfs_pointer then index else minus_1)

-- The loop of `tar_ls`, which counts what it shows.
unfoldable pub count_children : Vfs → (parent_index index left file_count : ℕ) → ℕ
count_children v parent_index index zero file_count = file_count
count_children v parent_index index (suc left) file_count =
    count_children v parent_index (index + 1) left
      (if (v.slots index).parent == parent_index then file_count + 1 else file_count)

unfoldable pub tar_ls : List ℕ → Vfs → Run ℕ
tar_ls filename v = tar_get_index filename v >>= λ parent_index.
    ok (count_children v parent_index 0 v.vfs_pointer 0)

-- The loop of `traverse_tarfs`, which looks for the name at every eighth byte.
unfoldable pub find_from : (fuel strings : ℕ) → Memory → (end : ℕ) → List ℕ → (p : ℕ) → Run ℕ
find_from zero strings m end filename p = out_of_fuel
find_from (suc fuel) strings m end filename p =
    let rest = find_from fuel strings m end filename (add64 p 8) in
    let test = λ (name : List ℕ). if same_name filename name then ok p else rest in
    if leb p end then (read_string strings m p >>= test) else ok 0

unfoldable pub traverse_tarfs : (fuel strings : ℕ) → Memory → (start end : ℕ) → List ℕ → Run ℕ
traverse_tarfs fuel strings m start end filename = find_from fuel strings m end filename start

-- The image behind the header that was found, or NULL.
unfoldable pub get_elf : (fuel strings : ℕ) → Memory → (start end : ℕ) → List ℕ → Run ℕ
get_elf fuel strings m start end filename =
    traverse_tarfs fuel strings m start end filename >>= λ p. ok (if p == 0 then 0 else add64 p 512)
