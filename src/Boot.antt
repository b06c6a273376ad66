-- ===== src/Boot.antt =====
-- How `start` of sys/main.c reads the memory map of the loader and builds the list of pages from it.
-- The loader's tables are in byte memory, apart from the words of the list.
pub mod Map
mod Tests
use sbunix_public.Base.{
  ℕ, zero, suc, ◌+◌, ◌*◌, ◌%◌, ◌^◌, Run, ok, out_of_fuel, ◌>>=◌, ltb, ◌==◌, if◌then◌else◌, Bool,
  ◌&&◌, true, false,
}
use sbunix_public.Memory.{Memory, add64}
use sbunix_public.Elf.{read_bytes}
use sbunix_public.Paging.FreeList.{
  Pages, initialize_free_list, append_free_list, set_free_list_head,
}

-- `modulep[i]`
unfoldable pub word_at : Memory → (modulep i : ℕ) → ℕ
word_at m modulep i = read_bytes m (modulep + 4 * i) 4

-- `while (modulep[0] != 0x9001) modulep += modulep[1] + 2;`
unfoldable pub find_map : ℕ → Memory → ℕ → Run ℕ
find_map zero m modulep = out_of_fuel
find_map (suc fuel) m modulep =
    let rest = find_map fuel m (add64 modulep (4 * ((word_at m modulep 1 + 2) % 2 ^ 32))) in
    if word_at m modulep 0 == 0x9001 then ok modulep else rest

pub record SmapT : Type 0 where
  pub base : ℕ
  pub length : ℕ
  pub type : ℕ

unfoldable pub read_smap : Memory → ℕ → SmapT
read_smap m smap = record {
  base = read_bytes m smap 8;
  length = read_bytes m (smap + 8) 8;
  type = read_bytes m (smap + 16) 4;
}

-- `smap->type == 1 && smap->length != 0`
unfoldable pub is_usable : SmapT → Bool
is_usable e = (e.type == 1) && (if e.length == 0 then false else true)

-- The loop over the entries of 20 bytes, up to `limit`.
unfoldable pub append_map : ℕ → (walk : ℕ) → Memory → (smap limit physfree : ℕ) → Pages → Run Pages
append_map zero walk m smap limit physfree s = out_of_fuel
append_map (suc fuel) walk m smap limit physfree s =
    let e = read_smap m smap in
    let next = λ (t : Pages). append_map fuel walk m (add64 smap 20) limit physfree t in
    if ltb smap limit
    then (if is_usable e
        then (append_free_list walk e.base (add64 e.base e.length) physfree s >>= next)
        else next s)
    else ok s

-- The list of pages, from `initialize_free_list` to `set_free_list_head`.
unfoldable pub start_pages : ℕ → (walk : ℕ) → Memory → (modulep physfree : ℕ) → Pages → Run Pages
start_pages fuel walk m modulep physfree s = do
  map ← find_map fuel m modulep
  t ← append_map fuel walk m (map + 8) (map + word_at m map 1 + 8) physfree (initialize_free_list s)
  set_free_list_head t
