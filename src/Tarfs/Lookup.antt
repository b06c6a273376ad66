-- ===== src/Tarfs/Lookup.antt =====
-- The searches of sys/tarfs.c in the table of the files.
use mathlib.Core.Bool.{false≢true}
use sbunix_public.Base.{
  ok, lt→leb_false, lt→ltb, le→ltb_false, ℕ, zero, suc, ◌+◌, ◌<◌, ◌≡◌, ◌≢◌, ◌⊎◌, inl, inr, arith,
  refl, sym, ap, ◌∙◌, ◌==◌, if◌then◌else◌, Bool-cases, ==_iff, List, [], ◌∷◌, length, true, false,
}
use sbunix_public.Tarfs.{
  Vfs, search, tar_lookup, tar_get_index, tar_ls, count_children, vfs_size, minus_1, same_name,
}
use sbunix_public.Tarfs.Names.{same_name_refl, same_name_eq}

not_before :
    (v : Vfs) (filename : List ℕ) (i j : ℕ)
    → ((k : ℕ) → k < i → (v.slots k).name ≢ filename)
    → same_name (v.slots i).name filename ≡ false
    → j < i + 1
    → (v.slots j).name ≢ filename
not_before v filename i j before q h e = elim (Bool-cases (j == i)) [
  | inl at ↦
      let here : (v.slots i).name ≡ filename =
        ap (λ (k : ℕ). (v.slots k).name) (sym ((==_iff j i).0 at)) ∙ e in
      let yes : same_name (v.slots i).name filename ≡ true = rw here (same_name_refl filename) in
      false≢true (sym q ∙ yes)
  | inr n ↦ let ne : j ≢ i = ground arith in before j (omega arith) e
]

-- The loop stops at the first slot of that name, or behind the last.
search_from :
    (v : Vfs) (filename : List ℕ) (i left : ℕ)
    → v.vfs_pointer < vfs_size
    → i + left ≡ v.vfs_pointer
    → ((j : ℕ) → j < i → (v.slots j).name ≢ filename)
    → ((k : ℕ) × (search v filename i left ≡ ok k)
        × (k < v.vfs_pointer)
        × ((v.slots k).name ≡ filename)
        × ((j : ℕ) → j < k → (v.slots j).name ≢ filename))
      ⊎ ((search v filename i left ≡ ok v.vfs_pointer)
          × ((j : ℕ) → j < v.vfs_pointer → (v.slots j).name ≢ filename))
unfolding search
search_from v filename i zero room e before =
    let at : i ≡ v.vfs_pointer = omega arith in
    inr (rw (lt→leb_false vfs_size i (omega arith), at) refl, λ j h. before j (omega arith))
search_from v filename i (suc left) room e before =
    let inside = lt→leb_false vfs_size i (omega arith) in
    elim (Bool-cases (same_name (v.slots i).name filename)) [
      | inl q ↦
          inl
            (i, rw (inside, q) refl, omega arith, same_name_eq (v.slots i).name filename q, before)
      | inr q ↦
          elim (search_from v filename (i + 1) left room (omega arith)
            (λ j h. not_before v filename i j before q h)) [
              | inl (k, run, lt, at, first) ↦ inl (k, rw (inside, q) run, lt, at, first)
              | inr (run, no_slot) ↦ inr (rw (inside, q) run, no_slot)
            ]
    ]

-- The slots of the files in a directory, from slot `i` on.
unfoldable pub children : Vfs → (parent i left : ℕ) → List ℕ
children v parent i zero = []
children v parent i (suc left) =
    let rest = children v parent (i + 1) left in
    if (v.slots i).parent == parent then i ∷ rest else rest

count_children_lem :
    (v : Vfs) (parent i left n : ℕ)
    → count_children v parent i left n ≡ n + length (children v parent i left)
unfolding count_children children
count_children_lem v parent i zero n = omega arith
count_children_lem v parent i (suc left) n = elim (Bool-cases ((v.slots i).parent == parent)) [
  | inl q ↦ rw q (count_children_lem v parent (i + 1) left (n + 1) ∙ omega arith)
  | inr q ↦ rw q (count_children_lem v parent (i + 1) left n)
]

-- As long as the table is not full, the searches for a name terminate. If slots have the name,
-- `tar_get_index` answers the first of them, `tar_lookup` its address, and `tar_ls` how many slots
-- have it as their parent. If none has it, they answer -1, NULL, and how many have no parent.
pub tar_get_index_lem :
    (v : Vfs) (filename : List ℕ)
    → v.vfs_pointer < vfs_size
    → ((k : ℕ) × (k < v.vfs_pointer)
        × ((v.slots k).name ≡ filename)
        × ((j : ℕ) → j < k → (v.slots j).name ≢ filename)
        × (tar_get_index filename v ≡ ok k)
        × (tar_lookup filename v ≡ ok (v.slots k).address)
        × (tar_ls filename v ≡ ok (length (children v k 0 v.vfs_pointer))))
      ⊎ (((j : ℕ) → j < v.vfs_pointer → (v.slots j).name ≢ filename)
          × (tar_get_index filename v ≡ ok minus_1)
          × (tar_lookup filename v ≡ ok 0)
          × (tar_ls filename v ≡ ok (length (children v minus_1 0 v.vfs_pointer))))
unfolding tar_get_index tar_lookup tar_ls
tar_get_index_lem v filename room =
    elim (search_from v filename 0 v.vfs_pointer room (omega arith) (λ j h. absurd (omega arith))) [
      | inl (k, run, lt, at, first) ↦
          let test = lt→ltb k v.vfs_pointer lt in
          inl (
            k,
            lt,
            at,
            first,
            rw (run, test) refl,
            rw (run, test) refl,
            rw (run, test) (ap ok (count_children_lem v k 0 v.vfs_pointer 0 ∙ omega arith)),
          )
      | inr (run, no_slot) ↦
          let test = le→ltb_false v.vfs_pointer v.vfs_pointer (omega arith) in
          inr (
            no_slot,
            rw (run, test) refl,
            rw (run, test) refl,
            rw (run, test) (ap ok (count_children_lem v minus_1 0 v.vfs_pointer 0 ∙ omega arith)),
          )
    ]
