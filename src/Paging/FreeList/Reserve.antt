-- ===== src/Paging/FreeList/Reserve.antt =====
-- `set_free_list_head` of sys/paging.c keeps the pages that the list itself stands in.
use sbunix_public.Base.{
  ℕ, zero, suc, ◌+◌, ◌-◌, ◌*◌, ◌%◌, ◌^◌, ◌≤◌, ◌<◌, ◌≡◌, refl, arith, ne→==, ◌∙◌, ap, sym, ok, ◌>>=◌,
}
use sbunix_public.Memory.{Memory, sub64}
use sbunix_public.Paging.FreeList.{
  Pages, initialize_free_list, skip_pages, pages_for, set_free_list_head, get_next_free_page,
  append_free_list,
}
use sbunix_public.Paging.FreeList.Build.{IsList, append_free_list_first}
use sbunix_public.Paging.FreeList.Take.{
  pages_from, head_of, next_head, IsPool, take_pages, take_pages_lem,
}

-- `pages_for` is the least number of pages that hold `size` bytes.
pub pages_for_least :
    (size : ℕ) → (size ≤ 4096 * pages_for size) × (4096 * pages_for size < size + 4096)
unfolding pages_for
pages_for_least size = ground arith

skip_pages_lem :
    (reqd k left : ℕ) (m : Memory) (base : ℕ) (addr : ℕ → ℕ)
    → 0 < base
    → IsList m base addr (k + (reqd + left))
    → skip_pages reqd m (head_of base k (reqd + left)) ≡ ok (head_of base (k + reqd) left)
unfolding skip_pages
skip_pages_lem zero k left m base addr pos is =
    let e : 0 + left ≡ left = omega arith in let f : k + 0 ≡ k = omega arith in rw (e, f)
skip_pages_lem (suc reqd) k left m base addr pos is =
    let e : suc reqd + left ≡ suc (reqd + left) = omega arith in
    let f : k + suc reqd ≡ suc k + reqd = omega arith in
    let g : k + (suc reqd + left) ≡ suc k + (reqd + left) = omega arith in
    let h : k + (suc reqd + left) ≡ k + suc (reqd + left) = omega arith in
    rw
      (
        e,
        f,
        ne→== (base + 24 * k) 0 (omega (arith, pos)),
        next_head m base k (reqd + left) addr (rw h at is),
      )
      (skip_pages_lem reqd (suc k) left m base addr pos (rw g at is))

-- The structures of `n` pages fill no more than `n` pages.
pages_for_fits : (n : ℕ) → pages_for (24 * suc n) ≤ suc n
pages_for_fits n = omega (arith, pages_for_least (24 * suc n))

head_of-zero : (base n : ℕ) → 0 < n → head_of base 0 n ≡ base
head_of-zero base zero h = elim h [ ]
head_of-zero base (suc n) h = omega arith

skip_all :
    (reqd left : ℕ) (m : Memory) (base : ℕ) (addr : ℕ → ℕ)
    → 0 < base
    → 0 < reqd + left
    → IsList m base addr (reqd + left)
    → skip_pages reqd m base ≡ ok (head_of base reqd left)
skip_all reqd left m base addr pos more is =
    let e : 0 + (reqd + left) ≡ reqd + left = omega arith in
    let f : 0 + reqd ≡ reqd = omega arith in
    ap (skip_pages reqd m) (sym (head_of-zero base (reqd + left) more))
    ∙ skip_pages_lem reqd 0 left m base addr pos (rw e is)
    ∙ ap (λ (k : ℕ). ok (head_of base k left)) f

-- The state that `set_free_list_head` leaves.
abbrev pub reserved : Pages → ℕ → ℕ → ℕ → Pages
reserved s base reqd left = record s {
  free_list_head = head_of base reqd left;
  free_list_page_length = reqd;
  free_list_total_pages = left;
}

set_free_list_head_lem :
    (s : Pages) (base reqd left : ℕ) (addr : ℕ → ℕ)
    → 0 < base
    → base + 24 * (reqd + left) < 2 ^ 31
    → s.free_list ≡ base
    → s.free_list_total_pages ≡ reqd + left
    → 0 < reqd + left
    → pages_for (24 * (reqd + left)) ≡ reqd
    → IsList s.mem base addr (reqd + left)
    → set_free_list_head s ≡ ok (reserved s base reqd left)
unfolding set_free_list_head
set_free_list_head_lem s base reqd left addr pos small el et more er is =
    let size : s.free_list_total_pages * 24 % 2 ^ 64 ≡ 24 * (reqd + left) = omega arith in
    let rest : sub64 s.free_list_total_pages reqd ≡ left = omega arith in
    let skip : skip_pages reqd s.mem s.free_list ≡ ok (head_of base reqd left) =
      ap (skip_pages reqd s.mem) el ∙ skip_all reqd left s.mem base addr pos more is in
    rw (size, er, rest, skip)

-- The whole of the boot's work on a machine whose memory is one region of `n + 1` pages from
-- `physfree` on, at most 2 GB: the list is built and its own pages are set aside without a fault.
-- The pages handed out then are all the others, in order and each once, none of them holds a
-- structure of the list, and the call after the last of them answers -1.
pub boot_pages :
    (s : Pages) (walk physfree n : ℕ)
    → physfree % 4096 ≡ 0
    → 0 < physfree
    → physfree + 4096 * suc n < 2 ^ 31
    → let reqd = pages_for (24 * suc n) in
      let left = suc n - reqd in
      (t : Pages) × ((append_free_list walk 0
            (physfree + 4096 * suc n)
            physfree
            (initialize_free_list s)
          >>= set_free_list_head)
        ≡ ok t)
      × ((take_pages left t).0 ≡ pages_from (λ j. physfree + 4096 * j) reqd left)
      × (physfree + 24 * suc n ≤ physfree + 4096 * reqd)
      × (reqd ≤ suc n)
      × (get_next_free_page (take_pages left t).1 ≡ (2 ^ 64 - 1, (take_pages left t).1))
unfolding initialize_free_list
boot_pages s walk physfree n aligned pos small =
    let reqd = pages_for (24 * suc n) in
    let left = suc n - reqd in
    let total : reqd + left ≡ suc n = omega (arith, pages_for_fits n) in
    let (m, run, is) =
      append_free_list_first (initialize_free_list s) walk 0 physfree n refl aligned pos
        (omega arith) (omega arith) in
    let u = record s { mem = m; free_list = physfree; free_list_total_pages = 0 + suc n } in
    let is' : IsList m physfree (λ j. physfree + 4096 * j) (reqd + left) = rw total is in
    let set : set_free_list_head u ≡ ok (reserved u physfree reqd left) =
      set_free_list_head_lem u physfree reqd left (λ j. physfree + 4096 * j) pos (omega arith) refl
        (omega arith) (omega arith) (rw total) is' in
    let pool : IsPool m (head_of physfree reqd left) physfree (λ j. physfree + 4096 * j) reqd left =
      record { pos = pos; small = omega arith; list = is'; first = refl } in
    let (all, stop) =
      take_pages_lem left (reserved u physfree reqd left) physfree reqd (λ j. physfree + 4096 * j)
        pool in
    (
      reserved u physfree reqd left,
      rw run set,
      all,
      omega (arith, pages_for_least (24 * suc n)),
      pages_for_fits n,
      stop,
    )
