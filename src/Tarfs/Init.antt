-- ===== src/Tarfs/Init.antt =====
-- `tarfs_init` of sys/tarfs.c enters the files of an archive into the table.
use sbunix_public.Base.{
  ℕ, zero, suc, ◌+◌, ◌*◌, ◌/◌, ◌^◌, ◌<◌, ◌≤◌, ◌≡◌, ◌≢◌, ◌⊎◌, arith, refl, ok, ◌==◌, if◌then◌else◌,
  eq→==, ne→==, List, [], ◌∷◌, ◌++◌, length,
}
use sbunix_public.Memory.{Memory, add64}
use sbunix_public.Math.Octal.{ShowsOctal}
use sbunix_public.Tarfs.{
  parent_slot, Tarfs, Vfs, minus_1, read_string, slash, get_parent_index, root_directory_name,
}

-- The bytes of `name` and the end mark stand at `a`.
unfoldable pub IsName : Memory → ℕ → List ℕ → Type 0
IsName m a [] = m a ≡ 0
IsName m a (x ∷ xs) = (m a ≡ x) × (x ≢ 0) × IsName m (a + 1) xs

pub read_string_lem :
    (fuel : ℕ) (m : Memory) (a : ℕ) (name : List ℕ)
    → IsName m a name
    → length name < fuel
    → read_string fuel m a ≡ ok name
unfolding IsName read_string
read_string_lem zero m a name is h = absurd (omega arith)
read_string_lem (suc fuel) m a [] is h = rw (eq→== (m a) 0 is) refl
read_string_lem (suc fuel) m a (x ∷ xs) (at, ne, is) h =
    rw (at, ne→== x 0 ne, read_string_lem fuel m (a + 1) xs is (omega arith)) refl

-- A file of the archive; its type is '0' or, for a directory, '5'.
pub record ArchiveFile : Type 0 where
  pub name : List ℕ
  pub size : ℕ
  pub type : ℕ

abbrev pub next_header : ℕ → ArchiveFile → ℕ
next_header p f = p + 512 * ((f.size + 511) / 512 + 1)

-- A header at `p` for the file, in an archive from `start` to `end`.
pub record IsHeader (m : Memory) (start end p : ℕ) (f : ArchiveFile) : Type 0 where
  pub inside : p < end
  pub name : IsName m p f.name
  pub named : 0 < length f.name
  pub short : length f.name < 120
  pub int_size : f.size < 2 ^ 31
  pub size : ShowsOctal m (p + 124) 11 f.size
  pub type : m (p + 156) ≡ f.type
  pub known : (f.type ≡ 48) ⊎ (f.type ≡ 53)
  pub small : next_header p f + 512 < start + 2 ^ 32
  pub fits : next_header p f < 2 ^ 64

-- The headers stand one behind the other, up to a header with an empty name or the end.
pub data IsArchive (m : Memory) (start end : ℕ) : ℕ → List ArchiveFile → Type 0 where
  last : (p : ℕ) → (end ≤ p) ⊎ (m p ≡ 0) → IsArchive m start end p []
  file :
      (p : ℕ) (f : ArchiveFile) (files : List ArchiveFile)
      → IsHeader m start end p f
      → IsArchive m start end (next_header p f) files
      → IsArchive m start end p (f ∷ files)

abbrev pub slices : ℕ → ℕ
slices type = if type == 48 then 1 else 2

-- Slot `i` is for the file with its header at `p`. Its parent is what `get_parent_index` finds in
-- the slots before it. `address` is as far behind the header as the file is long, and `offset` is
-- that of the contents of the next file.
pub record IsSlot (t : Vfs) (start i p : ℕ) (f : ArchiveFile) : Type 0 where
  pub name : (t.slots i).name ≡ root_directory_name ++ f.name
  pub size : (t.slots i).size ≡ f.size
  pub type : (t.slots i).type ≡ f.type
  pub index : (t.slots i).index ≡ i
  pub address : (t.slots i).address ≡ p + f.size
  pub offset : (t.slots i).offset + start ≡ next_header p f + 512
  pub parent :
      get_parent_index
        (root_directory_name ++ f.name)
        (slices f.type)
        (record t { vfs_pointer = i })
      ≡ ok (t.slots i).parent

pub data AreSlots (t : Vfs) (start : ℕ) : (i p : ℕ) → List ArchiveFile → Type 0 where
  none : (i p : ℕ) → AreSlots t start i p []
  and :
      (i p : ℕ) (f : ArchiveFile) (files : List ArchiveFile)
      → IsSlot t start i p f
      → AreSlots t start (i + 1) (next_header p f) files
      → AreSlots t start i p (f ∷ files)

-- The slots of one table that another has as well.
abbrev Agree : Vfs → Vfs → ℕ → Type 0
Agree s t n = (j : ℕ) → j < n → s.slots j ≡ t.slots j

-- What stays when slot `n` is written.
put_slot : (v : Vfs) (i : ℕ) (x : Tarfs) → Vfs
put_slot v i x = record v { slots = λ j. if j == i then x else v.slots j }

slot_for : (start i p : ℕ) (f : ArchiveFile) → ℕ → Vfs → Tarfs
slot_for start i p f offset v = record {
  name = root_directory_name ++ f.name;
  parent = parent_slot (root_directory_name ++ f.name) (slices f.type) v;
  size = f.size;
  type = f.type;
  address = add64 p f.size;
  index = i;
  offset = offset;
}

-- The table behind a file.
abbrev entered : (start p : ℕ) → ArchiveFile → ℕ → Vfs → Vfs
entered start p f offset v =
    record (put_slot v v.vfs_pointer (slot_for start v.vfs_pointer p f offset v)) {
      vfs_pointer = v.vfs_pointer + 1;
    }

-- The table with `/` and `/rootfs/`.
abbrev with_roots : Vfs → Vfs
with_roots v =
    let root : Tarfs = record {
      name = slash ∷ [];
      parent = minus_1;
      size = 0;
      type = 5;
      address = 0;
      index = 0;
      offset = 0;
    } in
    let rootfs : Tarfs = record {
      name = root_directory_name;
      parent = 0;
      size = 0;
      type = 5;
      address = 0;
      index = 1;
      offset = 512;
    } in
    record {
      slots = λ j. if j == 1 then rootfs else (if j == 0 then root else v.slots j);
      vfs_pointer = 2;
    }
