-- ===== src/Boot/Tests.antt =====
-- The tables of a loader: a module of one word, and a memory map of two entries, of which the first is
-- not usable and the second has 400 pages from address 0 on.
use sbunix_public.Base.{◌≡◌, refl, arith, ok, ◌>>=◌, [], ◌∷◌}
use sbunix_public.Memory.{Memory, store}
use sbunix_public.Elf.{read_bytes}
use sbunix_public.Paging.FreeList.{
  Pages, initialize_free_list, append_free_list, set_free_list_head,
}
use sbunix_public.Boot.{SmapT, start_pages, word_at, read_smap, is_usable}
use sbunix_public.Boot.Map.{
  AreModules, map_here, other, IsMap, no_entry, entry, append_regions, start_pages_lem,
}

-- The module at 0x1000 has type 1 and one word; the map at 0x100c has 40 bytes.
abbrev tables : Memory
unfolding store
tables =
    store
      (store
        (store (store (store (store (store (λ _. 0) 0x1000 1) 0x1004 1) 0x100c 1) 0x100d 0x90)
          0x1010 40)
        0x1024 2)
      0x1032 0x39

abbrev usable_tables : Memory
unfolding store
usable_tables = store tables 0x1038 1

abbrev blank : Pages
blank = record {
  mem = λ _. 0;
  free_list = 7;
  free_list_head = 0;
  free_list_head_kmalloc = 0;
  free_list_page_length = 0;
  free_list_total_pages = 9;
}

abbrev reserved : SmapT
reserved = record { base = 0; length = 0; type = 2 }

abbrev region : SmapT
region = record { base = 0; length = 0x39_0000; type = 1 }

two_entries : IsMap usable_tables 0x1014 (reserved ∷ region ∷ [])
unfolding store read_smap read_bytes
two_entries =
    entry 0x1014 reserved (region ∷ []) refl (entry 0x1028 region [] refl (no_entry 0x103c))

one_module : AreModules usable_tables 0x1000 0x100c 1
unfolding store word_at read_bytes
one_module = other 0x1000 0x100c 0x100c 0 (omega arith) refl (map_here 0x100c refl)

size : word_at usable_tables 0x100c 1 ≡ 40
unfolding store word_at read_bytes
size = refl

start_pages_lem_example : start_pages 3 0 usable_tables 0x1000 0x20_0000 blank ≡ (
    append_regions 0 0x20_0000 (reserved ∷ region ∷ []) (initialize_free_list blank)
    >>= set_free_list_head)
start_pages_lem_example =
    start_pages_lem 3 0 0x1000 0x20_0000 0x100c 1 (reserved ∷ region ∷ []) usable_tables blank
      one_module (omega arith) two_entries size (omega arith) (omega arith)

only_region :
    append_regions 0 0x20_0000 (reserved ∷ region ∷ []) (initialize_free_list blank)
    ≡ (append_free_list 0 0 0x39_0000 0x20_0000 (initialize_free_list blank) >>= λ t. ok t)
unfolding append_regions is_usable
only_region = refl
