-- ===== src/Tarfs/Find.antt =====
-- `get_elf` of sys/tarfs.c finds an image by the name in front of it.
use sbunix_public.Base.{
  ℕ, zero, suc, ◌+◌, ◌*◌, ◌^◌, ◌<◌, ◌≤◌, ◌≡◌, ◌≢◌, ◌⊎◌, inl, inr, arith, refl, sym, ◌∙◌, Run, ok,
  ◌==◌, Bool-cases, ==_iff, ne→==, leb, leb→le, List, [], ◌∷◌, length, true,
}
use mathlib.Core.Bool.{false≢true}
use sbunix_public.Memory.{Memory, add64}
use sbunix_public.Tarfs.{same_name, find_from, traverse_tarfs, get_elf}
use sbunix_public.Tarfs.Names.{same_name_eq}
use sbunix_public.Tarfs.Init.{IsName, read_string_lem}

IsName-unique :
    (m : Memory) (a : ℕ) (xs ys : List ℕ) → IsName m a xs → IsName m a ys → same_name xs ys ≡ true
unfolding IsName same_name
IsName-unique m a [] [] h k = refl
IsName-unique m a [] (y ∷ ys) h (at, ne, k) = absurd (ne (sym at ∙ h))
IsName-unique m a (x ∷ xs) [] (at, ne, h) k = absurd (ne (sym at ∙ k))
IsName-unique m a (x ∷ xs) (y ∷ ys) (at, ne, h) (at', ne', k) =
    let e : (x == y) ≡ true = (==_iff x y).1 (sym at ∙ at') in
    rw e (IsName-unique m (a + 1) xs ys h k)

-- Every eighth byte from `start` to `end` begins a string, whose end comes in time.
abbrev pub HasStrings : (strings : ℕ) → Memory → (start end : ℕ) → Type 0
HasStrings strings m start end =
    (j : ℕ)
    → start + 8 * j ≤ end
    → (name : List ℕ) × IsName m (start + 8 * j) name × (length name < strings)

IsName-before :
    (m : Memory) (start i j : ℕ) (filename : List ℕ)
    → ((k : ℕ) → k < i → ¬ IsName m (start + 8 * k) filename)
    → ¬ IsName m (start + 8 * i) filename
    → j < i + 1
    → ¬ IsName m (start + 8 * j) filename
IsName-before m start i j filename before here h = elim (Bool-cases (j == i)) [
  | inl q ↦ λ is. here (coe 0 1 (x. IsName m (start + 8 * (==_iff j i).0 q x) filename) is)
  | inr q ↦ let ne : j ≢ i = ground arith in before j (omega arith)
]

-- What a search from `start` on finds: the first place with the name, or none.
abbrev pub IsFound : Memory → (start end : ℕ) → List ℕ → Run ℕ → Type 0
IsFound m start end filename r =
    ((j : ℕ) × (r ≡ ok (start + 8 * j))
      × (start + 8 * j ≤ end)
      × IsName m (start + 8 * j) filename
      × ((k : ℕ) → k < j → ¬ IsName m (start + 8 * k) filename))
    ⊎ ((r ≡ ok 0) × ((k : ℕ) → start + 8 * k ≤ end → ¬ IsName m (start + 8 * k) filename))

find_from_lem :
    (fuel strings : ℕ) (m : Memory) (start end i : ℕ) (filename : List ℕ)
    → HasStrings strings m start end
    → end + 8 < 2 ^ 64
    → end + 8 < start + 8 * (i + fuel)
    → start + 8 * i ≤ end + 8
    → ((k : ℕ) → k < i → ¬ IsName m (start + 8 * k) filename)
    → IsFound m start end filename (find_from fuel strings m end filename (start + 8 * i))
unfolding find_from
find_from_lem zero strings m start end i filename names small far near before = absurd (omega arith)
find_from_lem (suc fuel) strings m start end i filename names small far near before =
    let p = start + 8 * i in
    elim (Bool-cases (leb p end)) [
      | inr q ↦ let past : end < p = ground arith in inr (rw q refl, λ k h. before k (omega arith))
      | inl q ↦
          let inside : p ≤ end = leb→le p end q in
          let (name, is, short) = names i inside in
          let read = read_string_lem strings m p name is short in
          elim (Bool-cases (same_name filename name)) [
            | inl e ↦
                let to = sym (same_name_eq filename name e) in
                inl (i, rw (q, read, e) refl, inside, coe 0 1 (x. IsName m p (to x)) is, before)
            | inr e ↦
                let next : start + 8 * (i + 1) ≡ add64 p 8 = omega arith in
                let here : ¬ IsName m p filename =
                  λ h. false≢true (sym e ∙ IsName-unique m p filename name h is) in
                let rest =
                  find_from_lem fuel strings m start end (i + 1) filename names small (omega arith)
                    (omega arith) (λ k lt. IsName-before m start i k filename before here lt) in
                let run : find_from (suc fuel) strings m end filename p
                    ≡ find_from fuel strings m end filename (start + 8 * (i + 1)) =
                  rw (q, read, e, next) refl in
                coe 0 1 (x. IsFound m start end filename (sym run x)) rest
          ]
    ]

-- With fuel for every eighth byte of the archive, `get_elf` terminates. It answers the place 512
-- bytes behind the first eighth byte where the name stands, and NULL if it stands at none. Each of
-- them begins a string whose end comes in time, and the archive is not at address 0.
pub get_elf_lem :
    (fuel strings : ℕ) (m : Memory) (start end : ℕ) (filename : List ℕ)
    → HasStrings strings m start end
    → 0 < start
    → start ≤ end
    → end + 512 < 2 ^ 64
    → end + 8 < start + 8 * fuel
    → ((j : ℕ) × (get_elf fuel strings m start end filename ≡ ok (start + 8 * j + 512))
        × (start + 8 * j ≤ end)
        × IsName m (start + 8 * j) filename
        × ((k : ℕ) → k < j → ¬ IsName m (start + 8 * k) filename))
      ⊎ ((get_elf fuel strings m start end filename ≡ ok 0)
          × ((k : ℕ) → start + 8 * k ≤ end → ¬ IsName m (start + 8 * k) filename))
unfolding get_elf traverse_tarfs
get_elf_lem fuel strings m start end filename names pos le small enough =
    let first : start + 8 * 0 ≡ start = omega arith in
    elim (find_from_lem fuel strings m start end 0 filename names (omega arith) (omega arith)
      (omega arith) (λ k lt. absurd (omega arith))) [
        | inl (j, run, inside, is, before) ↦
            let run' : find_from fuel strings m end filename start ≡ ok (start + 8 * j) =
              rw first at run in
            let live = ne→== (start + 8 * j) 0 (omega arith) in
            let next : add64 (start + 8 * j) 512 ≡ start + 8 * j + 512 = omega arith in
            inl (j, rw (run', live, next) refl, inside, is, before)
        | inr (run, no_name) ↦
            let run' : find_from fuel strings m end filename start ≡ ok 0 = rw first at run in
            inr (rw run' refl, no_name)
      ]
