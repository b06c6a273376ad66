-- ===== src/Boot/Map.antt =====
-- `start` of sys/main.c appends the usable regions of the memory map, in order.
use sbunix_public.Base.{
  inr, lt→ltb, ap, inl, Bool-cases, le→ltb_false, length, ℕ, zero, suc, ◌+◌, ◌*◌, ◌%◌, ◌^◌, ◌<◌,
  ◌≡◌, ◌≢◌, refl, sym, arith, Run, ok, ◌>>=◌, if◌then◌else◌, eq→==, ne→==, List, [], ◌∷◌,
}
use sbunix_public.Memory.{Memory, add64}
use sbunix_public.Paging.FreeList.{Pages, append_free_list}
use sbunix_public.Boot.{
  set_free_list_head, initialize_free_list, start_pages, append_map, word_at, find_map, SmapT,
  read_smap, is_usable,
}

-- The modules from `a` on: `n` others, and then the memory map at `p`.
pub data AreModules (m : Memory) : (a p n : ℕ) → Type 0 where
  map_here : (a : ℕ) → word_at m a 0 ≡ 0x9001 → AreModules m a a 0
  other :
      (a b p n : ℕ)
      → word_at m a 0 ≢ 0x9001
      → b ≡ add64 a (4 * ((word_at m a 1 + 2) % 2 ^ 32))
      → AreModules m b p n
      → AreModules m a p (suc n)

-- The entries from an address on.
pub data IsMap (m : Memory) : ℕ → List SmapT → Type 0 where
  no_entry : (a : ℕ) → IsMap m a []
  entry :
      (a : ℕ) (e : SmapT) (es : List SmapT)
      → read_smap m a ≡ e
      → IsMap m (a + 20) es
      → IsMap m a (e ∷ es)

-- The usable regions, one after the other.
unfoldable pub append_regions : (walk physfree : ℕ) → List SmapT → Pages → Run Pages
append_regions walk physfree [] s = ok s
append_regions walk physfree (e ∷ es) s =
    if is_usable e
    then (append_free_list walk e.base (add64 e.base e.length) physfree s
        >>= append_regions walk physfree es)
    else append_regions walk physfree es s

find_map_lem :
    (n fuel a p : ℕ) (m : Memory) → AreModules m a p n → n < fuel → find_map fuel m a ≡ ok p
unfolding find_map
find_map_lem n zero a p m are h = absurd (omega arith)
find_map_lem zero (suc fuel) a p m (map_here _ e) h = rw (eq→== (word_at m a 0) 0x9001 e) refl
find_map_lem (suc n) (suc fuel) a p m (other _ b _ _ ne e are) h =
    rw (ne→== (word_at m a 0) 0x9001 ne, sym e) (find_map_lem n fuel b p m are (omega arith))

append_map_lem :
    (es : List SmapT) (fuel walk smap limit physfree : ℕ) (m : Memory) (s : Pages)
    → IsMap m smap es
    → limit ≡ smap + 20 * length es
    → limit < 2 ^ 64
    → length es < fuel
    → append_map fuel walk m smap limit physfree s ≡ append_regions walk physfree es s
unfolding append_map append_regions
append_map_lem es zero walk smap limit physfree m s is e small h = absurd (omega arith)
append_map_lem [] (suc fuel) walk smap limit physfree m s is e small h =
    rw (le→ltb_false smap limit (omega arith)) refl
append_map_lem (x ∷ es) (suc fuel) walk smap limit physfree m s (entry _ _ _ at is) e small h =
    let next : add64 smap 20 ≡ smap + 20 = omega arith in
    let rest = λ (t : Pages).
      append_map_lem es fuel walk (smap + 20) limit physfree m t is (omega arith) small
        (omega arith) in
    let appended = append_free_list walk x.base (add64 x.base x.length) physfree s in
    elim (Bool-cases (is_usable x)) [
      | inl usable ↦
          rw (lt→ltb smap limit (omega arith), at, usable, next) (λ i. appended >>= λ t. rest t i)
      | inr unusable ↦ rw (lt→ltb smap limit (omega arith), at, unusable, next) (rest s)
    ]

-- `start` finds the memory map behind the other modules of the loader, and builds the list of pages
-- from the usable regions of the map, those of type 1 that are not empty, in the order of the map;
-- then the pages of the list itself are set aside. The map has as many entries of 20 bytes as its
-- size says, and the fuel is more than the modules and more than the entries.
pub start_pages_lem :
    (fuel walk modulep physfree p n : ℕ) (es : List SmapT) (m : Memory) (s : Pages)
    → AreModules m modulep p n
    → n < fuel
    → IsMap m (p + 8) es
    → word_at m p 1 ≡ 20 * length es
    → p + 20 * length es + 8 < 2 ^ 64
    → length es < fuel
    → start_pages fuel walk m modulep physfree s
      ≡ (append_regions walk physfree es (initialize_free_list s) >>= set_free_list_head)
unfolding start_pages
start_pages_lem fuel walk modulep physfree p n es m s modules enough is size small enough' =
    let found = find_map_lem n fuel modulep p m modules enough in
    let all =
      append_map_lem es fuel walk (p + 8) (p + 20 * length es + 8) physfree m
        (initialize_free_list s) is (omega arith) small enough' in
    rw (found, size) (ap (λ (r : Run Pages). r >>= set_free_list_head) all)
