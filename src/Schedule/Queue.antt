-- ===== src/Schedule/Queue.antt =====
-- A queue as the list of its processes, and the walk to its end.
use sbunix_public.Base.{
  inr, ==_iff, inl, Bool-cases, ℕ, zero, suc, ◌<◌, ◌≡◌, ◌≢◌, arith, refl, ap, sym, Bool, true,
  false, ◌||◌, ok, ◌==◌, if◌then◌else◌, eq→==, ne→==, List, [], ◌∷◌, ◌++◌, length,
}
use mathlib.Core.Bool.{false≢true}
use sbunix_public.Base.{◌∙◌}
use sbunix_public.Schedule.{Pcb, Store, write, set_next, last_process, append_process}

abbrev pub has : ℕ → List ℕ → Bool
has a [] = false
has a (x ∷ xs) = (a == x) || has a xs

abbrev pub Distinct : List ℕ → Type 0
Distinct [] = Unit
Distinct (x ∷ xs) = (has x xs ≡ false) × Distinct xs

-- From `p` the `next` fields lead through `xs` to NULL.
abbrev pub Queue : Store → ℕ → List ℕ → Type 0
Queue f p [] = p ≡ 0
Queue f p (x ∷ xs) = (p ≡ x) × (x ≢ 0) × Queue f (f x).next xs

abbrev pub last : ℕ → List ℕ → ℕ
last x [] = x
last x (y ∷ ys) = last y ys

pub has-last : (x : ℕ) (xs : List ℕ) → has (last x xs) (x ∷ xs) ≡ true
has-last x [] = ground arith
has-last x (y ∷ ys) = ground (arith, has-last y ys)

-- What is not in a list differs from what is.
pub has-ne : (a b : ℕ) (xs : List ℕ) → has a xs ≡ false → has b xs ≡ true → a ≢ b
has-ne a b xs out is = λ e. false≢true (sym out ∙ ap (λ (t : ℕ). has t xs) e ∙ is)

-- A process that is not in the queue can be written.
pub Queue-write :
    (xs : List ℕ) (f : Store) (p a : ℕ) (c : Pcb)
    → has a xs ≡ false
    → Queue f p xs
    → Queue (write f a c) p xs
unfolding write
Queue-write [] f p a c out q = q
Queue-write (x ∷ xs) f p a c out (e, n, q) =
    let apart : (x == a) ≡ false = ground arith in
    (e, n, rw apart (Queue-write xs f (f x).next a c (ground arith) q))

pub last_process_lem :
    (xs : List ℕ) (fuel : ℕ) (f : Store) (p x : ℕ)
    → Queue f p (x ∷ xs)
    → length xs < fuel
    → last_process fuel f p ≡ ok (last x xs)
unfolding last_process
last_process_lem xs zero f p x q h = absurd (omega arith)
last_process_lem [] (suc fuel) f p x (e, n, q) h = rw (e, eq→== (f x).next 0 q)
last_process_lem (y ∷ ys) (suc fuel) f p x (e, n, q) h =
    rw (e, ne→== (f x).next 0 (ground arith))
      (last_process_lem ys fuel f (f x).next y q (omega arith))

pub next-set_next :
    (f : Store) (a b c : ℕ) → (set_next f a b c).next ≡ (if c == a then b else (f c).next)
unfolding set_next
next-set_next f a b c = ground arith

pub next-set_next_twice :
    (f : Store) (l q c : ℕ)
    → (set_next (set_next f l q) q 0 c).next
      ≡ (if c == q then 0 else if c == l then q else (f c).next)
next-set_next_twice f l q c =
    ground (arith, next-set_next (set_next f l q) q 0 c, next-set_next f l q c)

pub Queue-append :
    (xs : List ℕ) (f : Store) (p x q : ℕ)
    → Queue f p (x ∷ xs)
    → Distinct (x ∷ xs)
    → has q (x ∷ xs) ≡ false
    → q ≢ 0
    → Queue (set_next (set_next f (last x xs) q) q 0) p (x ∷ (xs ++ (q ∷ [])))
Queue-append [] f p x q (e, n, h) d out ne = (
  e,
  n,
  (ground (arith, next-set_next_twice f x q x), ne, ground (arith, next-set_next_twice f x q q)),
)
Queue-append (y ∷ ys) f p x q (e, n, h) (dx, d) out ne =
    let l = last y ys in
    let g = set_next (set_next f l q) q 0 in
    let same : (g x).next ≡ (f x).next =
      ground (arith, next-set_next_twice f l q x, has-last y ys, has-ne x l (y ∷ ys)) in
    (e, n, rw same (Queue-append ys f (f x).next y q h d (ground arith) ne))

has-append : (a : ℕ) (xs ys : List ℕ) → has a (xs ++ ys) ≡ (has a xs || has a ys)
has-append a [] ys = refl
has-append a (x ∷ xs) ys = ground (arith, has-append a xs ys)

-- A new process behind a queue, or in front of it, leaves its processes distinct.
pub Distinct-append :
    (xs : List ℕ) (q : ℕ) → Distinct xs → has q xs ≡ false → Distinct (xs ++ (q ∷ []))
Distinct-append [] q d out = (refl, tt)
Distinct-append (x ∷ xs) q (dx, d) out =
    (ground (arith, has-append x xs (q ∷ [])), Distinct-append xs q d (ground arith))

-- Everything in a process but its `next` field.
abbrev pub contents : Pcb → Pcb
contents p = record p { next = 0 }

pub contents-set_next : (f : Store) (a b c : ℕ) → contents (set_next f a b c) ≡ contents (f c)
unfolding set_next
contents-set_next f a b c = elim (Bool-cases (c == a)) [
  | inl e ↦ rw e (ap (λ (t : ℕ). contents (f t)) (sym ((==_iff c a).0 e)))
  | inr n ↦ rw n
]

-- `append_process` puts the process behind the last of the queue, and writes `next` fields alone.
pub append_process_lem :
    (xs : List ℕ) (fuel : ℕ) (f : Store) (head q : ℕ)
    → Queue f head xs
    → Distinct xs
    → has q xs ≡ false
    → q ≢ 0
    → length xs < fuel
    → (g : Store) × (head' : ℕ) × (append_process fuel f head q ≡ ok (g, head'))
      × Queue g head' (xs ++ (q ∷ []))
      × ((a : ℕ) → contents (g a) ≡ contents (f a))
unfolding append_process
append_process_lem [] fuel f head q h d out ne enough = (
  set_next f q 0,
  q,
  rw (eq→== head 0 h),
  (refl, ne, ground (arith, next-set_next f q 0 q)),
  λ a. contents-set_next f q 0 a,
)
append_process_lem (x ∷ xs) fuel f head q h d out ne enough =
    let l = last x xs in
    (
      set_next (set_next f l q) q 0,
      head,
      rw (ne→== head 0 (ground arith), last_process_lem xs fuel f head x h (omega arith)),
      Queue-append xs f head x q h d out ne,
      λ a. contents-set_next (set_next f l q) q 0 a ∙ contents-set_next f l q a,
    )

pub write_self : (f : Store) (a : ℕ) (c : Pcb) → write f a c a ≡ c
unfolding write
write_self f a c = rw (eq→== a a refl)

pub write_ne : (f : Store) (a b : ℕ) (c : Pcb) → b ≢ a → write f a c b ≡ f b
unfolding write
write_ne f a b c ne = rw (ne→== b a ne)
