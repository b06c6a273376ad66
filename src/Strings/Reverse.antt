-- ===== src/Strings/Reverse.antt =====
-- `strrev` of sys/string.c turns round the bytes of a string and its end mark.
use sbunix_public.Base.{
  ◌≢◌, le→ltb_false, ==_iff, ◌∙◌, ℕ, zero, suc, ◌+◌, ◌-◌, ◌*◌, ◌<◌, ◌≤◌, ◌≡◌, ◌⊎◌, inl, inr, arith,
  refl, ap, ok, ltb, ◌==◌, eq→==, ne→==, ltb→lt, Bool-cases,
}
use sbunix_public.Memory.{Memory, store}
use sbunix_public.Strings.{swap_bytes, strrev}
use sbunix_public.Strings.Length.{IsString, strlen_lem}

-- The bytes from `i` to `j` turned round.
pub record IsTurned (m : Memory) (str i j : ℕ) (m' : Memory) : Type 0 where
  pub turned : (k : ℕ) → i ≤ k → k ≤ j → m' (str + k) ≡ m (str + (i + j - k))
  pub kept : (a : ℕ) → (a < str + i) ⊎ (str + j < a) → m' a ≡ m a

-- A swap of the ends of what is turned round already inside.
swap-IsTurned :
    (m : Memory) (str i j : ℕ) (m' : Memory)
    → i < j
    → IsTurned
        (store (store m (str + i) (m (str + j))) (str + j) (m (str + i)))
        str
        (i + 1)
        (j - 1)
        m'
    → IsTurned m str i j m'
unfolding store
swap-IsTurned m str i j m' h is = record {
  turned = λ k lo hi. elim (Bool-cases (k == i)) [
    | inl e ↦
        let at : k ≡ i = (==_iff k i).0 e in
        is.kept (str + k) (omega arith)
        ∙ rw (ne→== (str + k) (str + j) (omega arith), eq→== (str + k) (str + i) (omega arith))
            (ap m (omega arith))
    | inr e ↦ elim (Bool-cases (k == j)) [
      | inl f ↦
          let at : k ≡ j = (==_iff k j).0 f in
          is.kept (str + k) (omega arith)
          ∙ rw (eq→== (str + k) (str + j) (omega arith)) (ap m (omega arith))
      | inr f ↦
          let ne : k ≢ i = ground arith in
          let ne' : k ≢ j = ground arith in
          let b = str + (i + 1 + (j - 1) - k) in
          is.turned k (omega arith) (omega arith)
          ∙ rw (ne→== b (str + j) (omega arith), ne→== b (str + i) (omega arith))
              (ap m (omega arith))
    ]
  ];
  kept = λ a out.
      is.kept a (omega arith)
      ∙ rw (ne→== a (str + j) (omega arith), ne→== a (str + i) (omega arith)) refl;
}

unchanged-IsTurned : (m : Memory) (str i j : ℕ) → j ≤ i → IsTurned m str i j m
unchanged-IsTurned m str i j h = record {
  turned = λ k lo hi. ap m (omega arith);
  kept = λ a out. refl;
}

swap_bytes_lem :
    (fuel : ℕ) (m : Memory) (str i j : ℕ)
    → j ≤ i + 2 * fuel
    → (m' : Memory) × (swap_bytes (suc fuel) str i j m ≡ ok m') × IsTurned m str i j m'
unfolding swap_bytes
swap_bytes_lem zero m str i j h =
    (m, rw (le→ltb_false i j (omega arith)) refl, unchanged-IsTurned m str i j (omega arith))
swap_bytes_lem (suc fuel) m str i j h = elim (Bool-cases (ltb i j)) [
  | inl e ↦
      let lt : i < j = ltb→lt i j e in
      let m1 = store (store m (str + i) (m (str + j))) (str + j) (m (str + i)) in
      let (m', run, is) = swap_bytes_lem fuel m1 str (i + 1) (j - 1) (omega arith) in
      (m', rw e run, swap-IsTurned m str i j m' lt is)
  | inr e ↦ let le : j ≤ i = ground arith in (m, rw e refl, unchanged-IsTurned m str i j le)
]

-- `strrev` exchanges the bytes of a string together with its end mark: byte `k` of the result is byte
-- `n - k` of the string, for every `k` from 0 to its length `n`. So the first byte of the result is
-- the end mark, and what is left is the empty string. No other byte changes.
pub strrev_lem :
    (fuel : ℕ) (m : Memory) (str n : ℕ)
    → IsString m str n
    → n < fuel
    → (m' : Memory) × (strrev fuel str m ≡ ok m')
      × ((k : ℕ) → k ≤ n → m' (str + k) ≡ m (str + (n - k)))
      × ((a : ℕ) → (a < str) ⊎ (str + n < a) → m' a ≡ m a)
      × IsString m' str 0
unfolding strrev
strrev_lem zero m str n is h = absurd (omega arith)
strrev_lem (suc fuel) m str n is h =
    let (m', run, t) = swap_bytes_lem fuel m str 0 n (omega arith) in
    (
      m',
      rw (strlen_lem (suc fuel) m str n is h) run,
      λ k hi. t.turned k (omega arith) (omega arith) ∙ ap m (omega arith),
      λ a out. t.kept a (omega arith),
      record {
        chars = λ i lt. absurd (omega arith);
        end = t.turned 0 (omega arith) (omega arith) ∙ ap m (omega arith) ∙ is.end;
      },
    )
