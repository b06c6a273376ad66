-- ===== src/Paging/FreeList/Build.antt =====
-- `append_free_list` of sys/paging.c lays the `Page` structures out one behind the other, each with
-- the address of its page.
use sbunix_public.Base.{
  ℕ, zero, suc, ◌+◌, ◌*◌, ◌/◌, ◌%◌, ◌^◌, ◌≤◌, ◌<◌, ◌≡◌, ◌⊎◌, arith, ok, lt→ltb, le→ltb_false, ne→==,
  eq→==, le→leb, ◌∙◌, ap,
}
use native.Mathlib.Nat.{add-zero}
use sbunix_public.Memory.{Memory, store, clear_words, add64}
use sbunix_public.Memory.Laws.{clear_words_out}
use sbunix_public.Paging.Address.Laws.{round_up_least}
use sbunix_public.Paging.Address.{kernbase, round_up, behind}
use sbunix_public.Paging.FreeList.{
  Pages, clear_page, first_region, finish, append_first, append_free_list,
}

-- `n` structures from `base` on, each pointing to the one behind it, the `j`-th for page `addr j`.
abbrev pub Laid : Memory → ℕ → (ℕ → ℕ) → ℕ → Type 0
Laid m base addr n =
    (j : ℕ) → j < n → (m (base + 24 * j) ≡ base + 24 * suc j) × (m (base + 24 * j + 16) ≡ addr j)

pub clear_page_out :
    (m : Memory) (i a : ℕ) → i < 2 ^ 31 → (a < i) ⊎ (i + 512 ≤ a) → clear_page m i a ≡ m a
unfolding clear_page
clear_page_out m i a small h =
    let e : behind (add64 kernbase i) ≡ i = ground arith in
    rw e (
      clear_words_out 64 (clear_words m i 64) i a (ground arith)
      ∙ clear_words_out 64 m i a (ground arith))

Laid-step :
    (m : Memory) (base : ℕ) (addr : ℕ → ℕ) (k i temp : ℕ)
    → Laid m base addr k
    → temp ≡ base + 24 * k
    → i ≡ addr k
    → i < 2 ^ 31
    → base + 24 * k ≤ i
    → Laid (store (store (clear_page m i) (temp + 16) i) temp (temp + 24)) base addr (suc k)
unfolding store
Laid-step m base addr k i temp laid et ei small above = λ j h. ground (
  arith,
  laid j,
  clear_page_out m i (base + 24 * j) small,
  clear_page_out m i (base + 24 * j + 16) small,
)

-- The last of `k` structures, NULL before the first.
abbrev pub last_of : ℕ → ℕ → ℕ
last_of base zero = 0
last_of base (suc k) = base + 24 * k

first_region_lem :
    (rounds fuel end base i temp k : ℕ) (m : Memory) (total : ℕ)
    → Laid m base (λ j. base + 4096 * j) k
    → i ≡ base + 4096 * k
    → temp ≡ base + 24 * k
    → end ≡ base + 4096 * (k + rounds)
    → end ≤ 2 ^ 31
    → rounds < fuel
    → (m' : Memory) × (first_region fuel end i temp (last_of base k) m total
        ≡ ok (m', last_of base (k + rounds), total + rounds))
      × Laid m' base (λ j. base + 4096 * j) (k + rounds)
unfolding first_region
first_region_lem rounds zero end base i temp k m total laid ei et ee small fuel =
    absurd (omega arith)
first_region_lem zero (suc f) end base i temp k m total laid ei et ee small fuel =
    let e : k + 0 ≡ k = omega arith in
    (m, rw (e, le→ltb_false i end (omega arith), add-zero), rw e laid)
first_region_lem (suc r) (suc f) end base i temp k m total laid ei et ee small fuel =
    let e : k + suc r ≡ suc k + r = omega arith in
    let m' = store (store (clear_page m i) (temp + 16) i) temp (temp + 24) in
    let (m'', run, laid') =
      first_region_lem r f end base (add64 i 4096) (temp + 24) (suc k) m' (total + 1)
        (Laid-step m base (λ j. base + 4096 * j) k i temp laid et ei (omega arith) (omega arith))
        (omega arith) (omega arith) (omega arith) small (omega arith) in
    let eq : total + 1 + r ≡ total + suc r = omega arith in
    (
      m'',
      rw (e, lt→ltb i end (omega arith))
          (ap (λ (t : ℕ). first_region f end (add64 i 4096) (temp + 24) t m' (total + 1)) et
            ∙ run
            ∙ ap (λ (t : ℕ). ok (m'', last_of base (suc k + r), t)) eq),
      rw e laid',
    )

first_region_all :
    (n fuel base : ℕ) (m : Memory) (total : ℕ)
    → base + 4096 * n ≤ 2 ^ 31
    → n < fuel
    → (m' : Memory) × (first_region fuel (base + 4096 * n) base base 0 m total
        ≡ ok (m', last_of base n, total + n))
      × Laid m' base (λ j. base + 4096 * j) n
first_region_all n fuel base m total small enough =
    let z : 0 + n ≡ n = omega arith in
    rw z at (
      first_region_lem n fuel (base + 4096 * n) base base base 0 m total (λ j h. elim h [ ])
        (omega arith) (omega arith) (omega arith) small enough)

-- Structures laid out, and ended by NULL: the whole list.
pub record IsList (m : Memory) (base : ℕ) (addr : ℕ → ℕ) (n : ℕ) : Type 0 where
  pub next : (j : ℕ) → suc j < n → m (base + 24 * j) ≡ base + 24 * suc j
  pub end : (j : ℕ) → suc j ≡ n → m (base + 24 * j) ≡ 0
  pub p_addr : (j : ℕ) → j < n → m (base + 24 * j + 16) ≡ addr j

finish_lem :
    (s : Pages) (m : Memory) (base n total : ℕ) (addr : ℕ → ℕ)
    → 0 < base
    → Laid m base addr (suc n)
    → (m' : Memory) × (finish s (m, base + 24 * n, total)
        ≡ ok (record s { mem = m'; free_list_total_pages = total }))
      × IsList m' base addr (suc n)
unfolding finish store
finish_lem s m base n total addr pos laid = (
  store m (base + 24 * n) 0,
  rw (ne→== (base + 24 * n) 0 (omega arith)),
  record {
    next = λ j h. ground (arith, laid j);
    end = λ j h. ground arith;
    p_addr = λ j h. ground (arith, laid j);
  },
)

append_first_lem :
    (s : Pages) (base n : ℕ)
    → 0 < base
    → base + 4096 * suc n ≤ 2 ^ 31
    → (m : Memory) × (append_first (base + 4096 * suc n) base s
        ≡ ok (record s {
          mem = m;
          free_list = base;
          free_list_total_pages = s.free_list_total_pages + suc n;
        }))
      × IsList m base (λ j. base + 4096 * j) (suc n)
unfolding append_first
append_first_lem s base n pos small =
    let total = s.free_list_total_pages in
    let (m, run, laid) =
      first_region_all (suc n) ((base + 4096 * suc n) / 4096 + 1) base s.mem total small
        (omega arith) in
    let (m', fin, is) =
      finish_lem (record s { free_list = base }) m base n (total + suc n) (λ j. base + 4096 * j) pos
        laid in
    (m', rw run fin, is)

-- `append_free_list` on an empty list: a region that holds `physfree` and ends `n + 1` pages behind
-- it, at most 2 GB up, becomes a list of `n + 1` structures that starts at `physfree` and names the
-- pages from `physfree` on in order; the count grows by as many.
pub append_free_list_first :
    (s : Pages) (walk start physfree n : ℕ)
    → s.free_list ≡ 0
    → physfree % 4096 ≡ 0
    → 0 < physfree
    → start ≤ physfree
    → physfree + 4096 * suc n ≤ 2 ^ 31
    → (m : Memory) × (append_free_list walk start (physfree + 4096 * suc n) physfree s
        ≡ ok (record s {
          mem = m;
          free_list = physfree;
          free_list_total_pages = s.free_list_total_pages + suc n;
        }))
      × IsList m physfree (λ j. physfree + 4096 * j) (suc n)
unfolding append_free_list
append_free_list_first s walk start physfree n empty aligned pos before small =
    let end = physfree + 4096 * suc n in
    let re : round_up end ≡ end = ground (arith, round_up_least end (omega arith)) in
    let rp : round_up physfree ≡ physfree = ground (arith, round_up_least physfree (omega arith)) in
    let rs : round_up start ≤ physfree = omega (arith, round_up_least start (omega arith)) in
    rw (eq→== s.free_list 0 empty, re, rp, le→leb _ _ rs, le→leb physfree end (omega arith))
      (append_first_lem s physfree n pos small)
