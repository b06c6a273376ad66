-- ===== src/Tarfs/Tests.antt =====
-- An archive with the directory b/ and a file b/x of three bytes in it.

use sbunix_public.Base.{
  ◌*◌, ◌≤◌, ℕ, zero, suc, ◌+◌, ◌<◌, ◌≡◌, ◌≢◌, ◌⊎◌, arith, refl, ok, leb, ◌==◌, ◌&&◌, if◌then◌else◌,
  List, [], ◌∷◌, ◌++◌, length, get_or,
}
use sbunix_public.Memory.{Memory}
use sbunix_public.Tarfs.{
  get_elf, Vfs, slash, root_directory_name, minus_1, tar_lookup, tar_get_index, tar_ls,
}
use sbunix_public.Tarfs.Names.{IsPart}
use sbunix_public.Tarfs.Parent.{IsParent, get_parent_index_lem}
use sbunix_public.Tarfs.Lookup.{children, tar_get_index_lem}
use sbunix_public.Tarfs.Find.{HasStrings, get_elf_lem}
use sbunix_public.Tarfs.Init.{IsName, ArchiveFile}

-- The bytes of the names and types; the fields of the sizes are '0', but for the last digit of the
-- second.
abbrev archive : Memory
archive a =
    if leb 0x207c a && leb a 0x2086
    then 48
    else (if leb 0x227c a && leb a 0x2285
        then 48
        else get_or (48 ∷ 98 ∷ 47 ∷ 0 ∷ 53 ∷ 51 ∷ 98 ∷ 47 ∷ 120 ∷ 0 ∷ 48 ∷ [])
            (if a == 0x2000
              then 1
              else (if a == 0x2001
                  then 2
                  else (if a == 0x209c
                      then 4
                      else (if a == 0x2286
                          then 5
                          else (if a == 0x2200
                              then 6
                              else (if a == 0x2201
                                  then 7
                                  else (if a == 0x2202
                                      then 8
                                      else (if a == 0x229c then 10 else 3))))))))
            0)

abbrev directory : ArchiveFile
directory = record { name = 98 ∷ 47 ∷ []; size = 0; type = 53 }

abbrev text : ArchiveFile
text = record { name = 98 ∷ 47 ∷ 120 ∷ []; size = 3; type = 48 }

abbrev empty : Vfs
empty = record {
  slots =
      λ _. record { name = []; parent = 0; size = 0; type = 0; address = 0; index = 0; offset = 0 };
  vfs_pointer = 0;
}

-- A table of the root, /rootfs/ and /rootfs/b/.
abbrev table : Vfs
table = record {
  slots = λ j. record {
    name =
        if j == 0
        then slash ∷ []
        else (if j == 1 then root_directory_name else root_directory_name ++ (98 ∷ 47 ∷ []));
    parent = if j == 0 then minus_1 else (if j == 1 then 0 else 1);
    size = 0;
    type = 5;
    address = 0x1000 + j;
    index = j;
    offset = 0;
  };
  vfs_pointer = 3;
}

-- /rootfs, without its last slash.
abbrev rootfs : List ℕ
rootfs = 47 ∷ 114 ∷ 111 ∷ 111 ∷ 116 ∷ 102 ∷ 115 ∷ []

b-IsPart : IsPart (98 ∷ [])
unfolding IsPart
b-IsPart zero lt = omega arith
b-IsPart (suc i) lt = absurd (omega arith)

get_parent_index_lem_example :
    IsParent table rootfs 1 (rootfs ++ (slash ∷ (98 ∷ [])))
    × IsParent table rootfs 2 (rootfs ++ (slash ∷ ((98 ∷ []) ++ (slash ∷ []))))
get_parent_index_lem_example = get_parent_index_lem table rootfs (98 ∷ []) b-IsPart

tar_get_index_lem_example :
    ((k : ℕ) × (k < 3)
      × ((table.slots k).name ≡ root_directory_name)
      × ((j : ℕ) → j < k → (table.slots j).name ≢ root_directory_name)
      × (tar_get_index root_directory_name table ≡ ok k)
      × (tar_lookup root_directory_name table ≡ ok (table.slots k).address)
      × (tar_ls root_directory_name table ≡ ok (length (children table k 0 3))))
    ⊎ (((j : ℕ) → j < 3 → (table.slots j).name ≢ root_directory_name)
        × (tar_get_index root_directory_name table ≡ ok minus_1)
        × (tar_lookup root_directory_name table ≡ ok 0)
        × (tar_ls root_directory_name table ≡ ok (length (children table minus_1 0 3))))
tar_get_index_lem_example = tar_get_index_lem table root_directory_name (omega arith)

-- The string "b" at 0x2008, the second eighth byte.
abbrev letter : Memory
letter a = if a == 0x2008 then 98 else 0

letter-HasStrings : HasStrings 2 letter 0x2000 0x2010
unfolding IsName
letter-HasStrings zero le = ([], refl, omega arith)
letter-HasStrings (suc zero) le = (98 ∷ [], (refl, omega arith, refl), omega arith)
letter-HasStrings (suc (suc j)) le = ([], ground arith, omega arith)

get_elf_lem_example :
    ((j : ℕ) × (get_elf 4 2 letter 0x2000 0x2010 (98 ∷ []) ≡ ok (0x2000 + 8 * j + 512))
      × (0x2000 + 8 * j ≤ 0x2010)
      × IsName letter (0x2000 + 8 * j) (98 ∷ [])
      × ((k : ℕ) → k < j → ¬ IsName letter (0x2000 + 8 * k) (98 ∷ [])))
    ⊎ ((get_elf 4 2 letter 0x2000 0x2010 (98 ∷ []) ≡ ok 0)
        × ((k : ℕ) → 0x2000 + 8 * k ≤ 0x2010 → ¬ IsName letter (0x2000 + 8 * k) (98 ∷ [])))
get_elf_lem_example =
    get_elf_lem 4 2 letter 0x2000 0x2010 (98 ∷ []) letter-HasStrings (omega arith) (omega arith)
      (omega arith) (omega arith)
