-- ===== src/Tarfs/Names.antt =====
-- The parent of a file in sys/tarfs.c: the directory that its name goes on from.
use mathlib.Core.Bool.{false≢true}
use sbunix_public.Base.{
  ℕ, zero, suc, ◌+◌, ◌<◌, ◌≤◌, ◌≡◌, ◌≢◌, inl, inr, arith, refl, sym, ap, ◌∙◌, ◌==◌, Bool-cases,
  ==_iff, eq→==, ne→==, List, [], ◌∷◌, ◌++◌, length, take, get_or, true, false,
}
use sbunix_public.Tarfs.{Vfs, same_name, slash, back_over, find_slot, minus_2}

-- No byte of the name is a slash.
unfoldable pub IsPart : List ℕ → Type 0
IsPart part = (i : ℕ) → i < length part → get_or part i 0 ≢ slash

pub get_or-append_left :
    (xs ys : List ℕ) (i : ℕ) → i < length xs → get_or (xs ++ ys) i 0 ≡ get_or xs i 0
get_or-append_left [] ys i h = absurd (omega arith)
get_or-append_left (x ∷ xs) ys zero h = refl
get_or-append_left (x ∷ xs) ys (suc i) h = get_or-append_left xs ys i (omega arith)

pub get_or-append_right :
    (xs ys : List ℕ) (i j : ℕ) → i ≡ length xs + j → get_or (xs ++ ys) i 0 ≡ get_or ys j 0
get_or-append_right [] ys i j e = ap (λ (k : ℕ). get_or ys k 0) (omega arith)
get_or-append_right (x ∷ xs) ys zero j e = absurd (omega arith)
get_or-append_right (x ∷ xs) ys (suc i) j e = get_or-append_right xs ys i j (omega arith)

pub take-append : (xs ys : List ℕ) (n : ℕ) → n ≡ length xs → take n (xs ++ ys) ≡ xs
take-append [] ys zero e = refl
take-append [] ys (suc n) e = absurd (omega arith)
take-append (x ∷ xs) ys zero e = absurd (omega arith)
take-append (x ∷ xs) ys (suc n) e = ap (λ (t : List ℕ). x ∷ t) (take-append xs ys n (omega arith))

-- The loop goes back over bytes that are no slash.
pub back_over_part :
    (name : List ℕ) (i n slices : ℕ)
    → ((j : ℕ) → i ≤ j → j < i + n → get_or name j 0 ≢ slash)
    → back_over name (i + n) (suc slices) ≡ back_over name i (suc slices)
unfolding back_over
back_over_part name i zero slices h = ap (λ (k : ℕ). back_over name k (suc slices)) (omega arith)
back_over_part name i (suc n) slices h =
    let e : i + suc n ≡ suc (i + n) = omega arith in
    rw (e, ne→== (get_or name (i + n) 0) slash (h (i + n) (omega arith) (omega arith)))
      (back_over_part name i n slices (λ j lo hi. h j lo (omega arith)))

-- And stops at the slash that is the last to go back to.
pub back_over-slash :
    (name : List ℕ) (i slices : ℕ)
    → get_or name i 0 ≡ slash
    → back_over name (suc i) (suc slices) ≡ back_over name i slices
unfolding back_over
back_over-slash name i slices e = rw (eq→== (get_or name i 0) slash e) refl

pub back_over_end : (name : List ℕ) (i : ℕ) → back_over name i 0 ≡ i
unfolding back_over
back_over_end name zero = refl
back_over_end name (suc i) = refl

pub append_assoc : (xs ys zs : List ℕ) → (xs ++ ys) ++ zs ≡ xs ++ (ys ++ zs)
append_assoc [] ys zs = refl
append_assoc (x ∷ xs) ys zs = ap (λ (t : List ℕ). x ∷ t) (append_assoc xs ys zs)

pub same_name_refl : (a : List ℕ) → same_name a a ≡ true
unfolding same_name
same_name_refl [] = refl
same_name_refl (x ∷ xs) = rw (eq→== x x refl) (same_name_refl xs)

cons_eq : (x y : ℕ) (xs ys : List ℕ) → x ≡ y → xs ≡ ys → x ∷ xs ≡ y ∷ ys
cons_eq x y xs ys e e' = λ i. e i ∷ e' i

pub same_name_eq : (a b : List ℕ) → same_name a b ≡ true → a ≡ b
unfolding same_name
same_name_eq [] [] h = refl
same_name_eq [] (y ∷ ys) h = absurd (false≢true h)
same_name_eq (x ∷ xs) [] h = absurd (false≢true h)
same_name_eq (x ∷ xs) (y ∷ ys) h = elim (Bool-cases (x == y)) [
  | inl q ↦
      let tail : same_name xs ys ≡ true = rw q at h in
      cons_eq x y xs ys ((==_iff x y).0 q) (same_name_eq xs ys tail)
  | inr q ↦ let no : false ≡ true = rw q at h in absurd (false≢true no)
]

-- The number of the first slot with a name, or -2 if there is none.
pub data IsSlotOf (v : Vfs) (fname : List ℕ) : ℕ → Type 0 where
  found :
      (i : ℕ)
      → i < v.vfs_pointer
      → (v.slots i).name ≡ fname
      → ((j : ℕ) → j < i → (v.slots j).name ≢ fname)
      → IsSlotOf v fname i
  missing : ((j : ℕ) → j < v.vfs_pointer → (v.slots j).name ≢ fname) → IsSlotOf v fname minus_2

extend_none :
    (v : Vfs) (fname : List ℕ) (i j : ℕ)
    → ((k : ℕ) → k < i → (v.slots k).name ≢ fname)
    → same_name fname (v.slots i).name ≡ false
    → j < i + 1
    → (v.slots j).name ≢ fname
extend_none v fname i j before q h e = elim (Bool-cases (j == i)) [
  | inl at ↦
      let here : (v.slots i).name ≡ fname =
        ap (λ (k : ℕ). (v.slots k).name) (sym ((==_iff j i).0 at)) ∙ e in
      let yes : same_name fname (v.slots i).name ≡ true = rw here (same_name_refl fname) in
      false≢true (sym q ∙ yes)
  | inr n ↦ let ne : j ≢ i = ground arith in before j (omega arith) e
]

pub find_slot_from :
    (v : Vfs) (fname : List ℕ) (i left : ℕ)
    → i + left ≡ v.vfs_pointer
    → ((j : ℕ) → j < i → (v.slots j).name ≢ fname)
    → IsSlotOf v fname (find_slot v fname i left)
unfolding find_slot
find_slot_from v fname i zero e before = missing λ j h. before j (omega arith)
find_slot_from v fname i (suc left) e before =
    elim (Bool-cases (same_name fname (v.slots i).name)) [
      | inl q ↦ rw q (found i (omega arith) (sym (same_name_eq fname (v.slots i).name q)) before)
      | inr q ↦ rw q (
          find_slot_from v fname (i + 1) left (omega arith)
            (λ j h. extend_none v fname i j before q h))
    ]
