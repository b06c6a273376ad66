-- ===== src/Tarfs/Parent.antt =====
-- `get_parent_index` of sys/tarfs.c finds the directory that a name goes on from.

use sbunix_public.Base.{
  le→leb, inr, fault, lt→leb_false, ◌⊎◌, inl, ok, ℕ, suc, ◌+◌, ◌-◌, ◌<◌, ◌≤◌, ◌≡◌, ◌≢◌, arith, refl,
  sym, ap, ◌∙◌, List, [], ◌∷◌, ◌++◌, length, length-append, take, get_or,
}
use sbunix_public.Tarfs.{
  parent_length, parent_slot, Vfs, slash, back_over, find_slot, get_parent_index,
}
use sbunix_public.Tarfs.Names.{
  IsPart, get_or-append_left, get_or-append_right, take-append, back_over_part, back_over-slash,
  back_over_end, append_assoc, find_slot_from, IsSlotOf,
}

-- The bytes behind the slash are those of the last part.
part_apart :
    (dir base rest : List ℕ) (j : ℕ)
    → IsPart base
    → length dir + 1 ≤ j
    → j < length dir + 1 + length base
    → get_or (dir ++ (slash ∷ (base ++ rest))) j 0 ≢ slash
unfolding IsPart
part_apart dir base rest j part lo hi e =
    let k = j - (length dir + 1) in
    let at : j ≡ length dir + suc k = omega arith in
    let inside : k < length base = omega arith in
    part k inside (
      sym (
        get_or-append_right dir (slash ∷ (base ++ rest)) j (suc k) at
        ∙ get_or-append_left base rest k inside)
      ∙ e)

-- Going back over the last part stops at the slash in front of it.
back_over_base :
    (dir base rest : List ℕ) (slices : ℕ)
    → IsPart base
    → back_over (dir ++ (slash ∷ (base ++ rest))) (length dir + 1 + length base) (suc slices)
      ≡ back_over (dir ++ (slash ∷ (base ++ rest))) (length dir) slices
back_over_base dir base rest slices part =
    let name = dir ++ (slash ∷ (base ++ rest)) in
    let at : length dir + 1 ≡ suc (length dir) = omega arith in
    back_over_part name (length dir + 1) (length base) slices
      (λ j lo hi. part_apart dir base rest j part lo hi)
    ∙ ap (λ (k : ℕ). back_over name k (suc slices)) at
    ∙ back_over-slash name (length dir) slices
        (get_or-append_right dir (slash ∷ (base ++ rest)) (length dir) 0 (omega arith))

take_dir : (dir rest : List ℕ) → take (length dir + 1) (dir ++ (slash ∷ rest)) ≡ dir ++ (slash ∷ [])
take_dir dir rest =
    ap (take (length dir + 1)) (sym (append_assoc dir (slash ∷ []) rest))
    ∙ take-append (dir ++ (slash ∷ [])) rest (length dir + 1)
        (omega (arith, length-append dir (slash ∷ [])))

find_slot-dir :
    (v : Vfs) (dir rest : List ℕ) (slices : ℕ)
    → (let name = dir ++ (slash ∷ rest) in back_over name (length name) slices ≡ length dir)
    → (let name = dir ++ (slash ∷ rest) in
        IsSlotOf v
          (dir ++ (slash ∷ []))
          (find_slot v (take (back_over name (length name) slices + 1) name) 0 v.vfs_pointer))
find_slot-dir v dir rest slices e =
    rw (e, take_dir dir rest)
      (find_slot_from v (dir ++ (slash ∷ [])) 0 v.vfs_pointer (omega arith)
        (λ j h. absurd (omega arith)))

append_nil : (xs : List ℕ) → xs ++ [] ≡ xs
append_nil [] = refl
append_nil (x ∷ xs) = ap (λ (t : List ℕ). x ∷ t) (append_nil xs)

back_over_file :
    (dir base : List ℕ)
    → IsPart base
    → (let name = dir ++ (slash ∷ base) in back_over name (length name) 1 ≡ length dir)
back_over_file dir base part =
    let name = dir ++ (slash ∷ base) in
    let len : length name ≡ length dir + 1 + length base =
      omega (arith, length-append dir (slash ∷ base)) in
    let whole : back_over name (length dir + 1 + length base) 1 ≡ back_over name (length dir) 0 =
      coe 0 1
        (i.
          back_over (dir ++ (slash ∷ append_nil base i)) (length dir + 1 + length base) 1
          ≡ back_over (dir ++ (slash ∷ append_nil base i)) (length dir) 0)
        (back_over_base dir base [] 0 part) in
    ap (λ (k : ℕ). back_over name k 1) len ∙ whole ∙ back_over_end name (length dir)

back_over_directory :
    (dir base : List ℕ)
    → IsPart base
    → (let name = dir ++ (slash ∷ (base ++ (slash ∷ []))) in
        back_over name (length name) 2 ≡ length dir)
back_over_directory dir base part =
    let rest = base ++ (slash ∷ []) in
    let name = dir ++ (slash ∷ rest) in
    let last = length dir + 1 + length base in
    let len : length name ≡ suc last =
      omega (arith, length-append dir (slash ∷ rest), length-append base (slash ∷ [])) in
    let at : get_or name last 0 ≡ slash =
      get_or-append_right dir (slash ∷ rest) last (suc (length base)) (omega arith)
      ∙ get_or-append_right base (slash ∷ []) (length base) 0 (omega arith) in
    ap (λ (k : ℕ). back_over name k 2) len
    ∙ back_over-slash name last 1 at
    ∙ back_over_base dir base (slash ∷ []) 0 part
    ∙ back_over_end name (length dir)

-- The answer for a name below `dir`.
abbrev pub IsParent : Vfs → (dir : List ℕ) → (slices : ℕ) → List ℕ → Type 0
IsParent v dir slices name =
    (length dir + 1 < 128
      → (k : ℕ) × (get_parent_index name slices v ≡ ok k) × IsSlotOf v (dir ++ (slash ∷ [])) k)
    × (128 ≤ length dir + 1 → get_parent_index name slices v ≡ fault)

parent_length_of :
    (name : List ℕ) (slices k : ℕ)
    → (slices ≡ 1) ⊎ (slices ≡ 2)
    → back_over name (length name) slices ≡ k
    → parent_length name slices ≡ k + 1
unfolding parent_length
parent_length_of name slices k (inl e) at =
    let found : back_over name (length name) 1 ≡ k = rw e at at in rw (e, found) refl
parent_length_of name slices k (inr e) at =
    let found : back_over name (length name) 2 ≡ k = rw e at at in rw (e, found) refl

name-IsParent :
    (v : Vfs) (dir : List ℕ) (slices : ℕ) (name : List ℕ)
    → parent_length name slices ≡ length dir + 1
    → IsSlotOf v (dir ++ (slash ∷ [])) (parent_slot name slices v)
    → IsParent v dir slices name
unfolding get_parent_index
name-IsParent v dir slices name len slot = (
  λ short. (parent_slot name slices v, rw (len, lt→leb_false 128 _ short) refl, slot),
  λ long. rw (len, le→leb 128 _ long) refl,
)

-- The parent of a file, whose name is `dir`, a slash and a last part, and of a directory, whose name
-- ends in one slash more, is the first slot named `dir` with its slash, and -2 if there is none. With
-- its slash `dir` has less than 128 bytes; a longer one is copied past the end of an array.
pub get_parent_index_lem :
    (v : Vfs) (dir base : List ℕ)
    → IsPart base
    → IsParent v dir 1 (dir ++ (slash ∷ base))
      × IsParent v dir 2 (dir ++ (slash ∷ (base ++ (slash ∷ []))))
unfolding parent_slot
get_parent_index_lem v dir base part = (
  name-IsParent v dir 1 (dir ++ (slash ∷ base))
      (parent_length_of (dir ++ (slash ∷ base)) 1 (length dir) (inl refl)
        (back_over_file dir base part))
      (find_slot-dir v dir base 1 (back_over_file dir base part)),
  name-IsParent v dir 2 (dir ++ (slash ∷ (base ++ (slash ∷ []))))
      (parent_length_of (dir ++ (slash ∷ (base ++ (slash ∷ [])))) 2 (length dir) (inr refl)
        (back_over_directory dir base part))
      (find_slot-dir v dir (base ++ (slash ∷ [])) 2 (back_over_directory dir base part)),
)
