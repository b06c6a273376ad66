-- ===== src/Strings/Length.antt =====
-- `strlen` of sys/string.c finds the end of a string.
use sbunix_public.Base.{
  ◌-◌, ◌≤◌, inr, ltb→lt, inl, ltb, Bool-cases, ℕ, zero, suc, ◌+◌, ◌<◌, ◌≡◌, ◌≢◌, arith, refl, ok,
  eq→==, ne→==,
}
use sbunix_public.Memory.{Memory}
use sbunix_public.Strings.{strlen_from, strlen}

-- `n` bytes that are not 0, and a 0 behind them.
pub record IsString (m : Memory) (str n : ℕ) : Type 0 where
  pub chars : (i : ℕ) → i < n → m (str + i) ≢ 0
  pub end : m (str + n) ≡ 0

strlen_from_lem :
    (left fuel : ℕ) (m : Memory) (str n len : ℕ)
    → IsString m str n
    → len + left ≡ n
    → left < fuel
    → strlen_from fuel m str len ≡ ok n
unfolding strlen_from
strlen_from_lem left zero m str n len is e h = absurd (omega arith)
strlen_from_lem zero (suc fuel) m str n len is e h =
    let at : len ≡ n = omega arith in rw (at, eq→== (m (str + n)) 0 is.end) refl
strlen_from_lem (suc left) (suc fuel) m str n len is e h =
    rw (ne→== (m (str + len)) 0 (is.chars len (omega arith)))
      (strlen_from_lem left fuel m str n (len + 1) is (omega arith) (omega arith))

-- `strlen` answers the length of a string, when it may look at one byte more than that.
pub strlen_lem :
    (fuel : ℕ) (m : Memory) (str n : ℕ) → IsString m str n → n < fuel → strlen fuel m str ≡ ok n
unfolding strlen
strlen_lem fuel m str n is h = strlen_from_lem n fuel m str n 0 is (omega arith) h

pub IsString-join :
    (m : Memory) (str n1 n2 : ℕ)
    → ((i : ℕ) → i < n1 → m (str + i) ≢ 0)
    → ((i : ℕ) → i < n2 → m (str + (n1 + i)) ≢ 0)
    → m (str + (n1 + n2)) ≡ 0
    → IsString m str (n1 + n2)
IsString-join m str n1 n2 first second end = record {
  chars = λ i h. elim (Bool-cases (ltb i n1)) [
    | inl e ↦ first i (ltb→lt i n1 e)
    | inr e ↦
        let lo : n1 ≤ i = ground arith in
        let at : n1 + (i - n1) ≡ i = omega arith in
        coe 0 1 (j. m (str + at j) ≢ 0) (second (i - n1) (omega arith))
  ];
  end = end;
}
