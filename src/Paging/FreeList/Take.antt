-- ===== src/Paging/FreeList/Take.antt =====
-- `get_next_free_page` and `get_next_free_page_kmalloc` of sys/paging.c take the pages of a list
-- one after the other.
use sbunix_public.Base.{
  ℕ, zero, suc, ◌+◌, ◌-◌, ◌^◌, ◌*◌, ◌^◌, ◌<◌, ◌≡◌, arith, refl, eq→==, ne→==, List, [], ◌∷◌,
}
use sbunix_public.Memory.{Memory, store}
use sbunix_public.Paging.FreeList.{Pages, get_next_free_page}
use sbunix_public.Paging.FreeList.Build.{IsList}

-- The pages from the `k`-th on, `left` of them.
abbrev pub pages_from : (ℕ → ℕ) → ℕ → ℕ → List ℕ
pages_from addr k zero = []
pages_from addr k (suc left) = addr k ∷ pages_from addr (suc k) left

-- The structure of the first of them, NULL if none is left.
abbrev pub head_of : ℕ → ℕ → ℕ → ℕ
head_of base k zero = 0
head_of base k (suc left) = base + 24 * k

-- A list with its first `k` structures taken and `left` to go.
pub record IsPool (m : Memory) (head base : ℕ) (addr : ℕ → ℕ) (k left : ℕ) : Type 0 where
  pub pos : 0 < base
  pub small : base + 24 * (k + left) < 2 ^ 31
  pub list : IsList m base addr (k + left)
  pub first : head ≡ head_of base k left

-- A status word is no other word of a structure.
status-IsList :
    (m : Memory) (base : ℕ) (addr : ℕ → ℕ) (n k v : ℕ)
    → IsList m base addr n
    → IsList (store m (base + 24 * k + 8) v) base addr n
unfolding store
status-IsList m base addr n k v is = record {
  next = λ j h. ground (arith, is.next j);
  end = λ j h. ground (arith, is.end j);
  p_addr = λ j h. ground (arith, is.p_addr j);
}

pub next_head :
    (m : Memory) (base k left : ℕ) (addr : ℕ → ℕ)
    → IsList m base addr (k + suc left)
    → m (base + 24 * k) ≡ head_of base (suc k) left
next_head m base k zero addr is = is.end k (omega arith)
next_head m base k (suc left) addr is = is.next k (omega arith)

-- What is left of the pool when its first structure is marked and passed over.
pub IsPool-step :
    {m : Memory} {head base k left : ℕ} {addr : ℕ → ℕ}
    → IsPool m head base addr k (suc left)
    → let m' = store m (base + 24 * k + 8) 1 in
      (head ≡ base + 24 * k)
      × (m' (base + 24 * k + 16) ≡ addr k)
      × IsPool m' (m' (base + 24 * k)) base addr (suc k) left
IsPool-step {m} {base} {k} {left} {addr} p =
    let is = status-IsList m base addr (k + suc left) k 1 p.list in
    let e : k + suc left ≡ suc k + left = omega arith in
    (
      p.first,
      is.p_addr k (omega arith),
      record {
        pos = p.pos;
        small = omega (arith, p.small);
        list = rw e at is;
        first = next_head (store m (base + 24 * k + 8) 1) base k left addr is;
      },
    )

-- A run of `count` calls: the pages, and the state behind them.
pub take_pages : ℕ → Pages → List ℕ × Pages
take_pages zero s = ([], s)
take_pages (suc count) s =
    let (page, s') = get_next_free_page s in let (rest, t) = take_pages count s' in (page ∷ rest, t)

pub get_next_free_page_step :
    (s : Pages) (base k left : ℕ) (addr : ℕ → ℕ)
    → IsPool s.mem s.free_list_head base addr k (suc left)
    → let t = (get_next_free_page s).1 in
      ((get_next_free_page s).0 ≡ addr k) × IsPool t.mem t.free_list_head base addr (suc k) left
unfolding get_next_free_page
get_next_free_page_step s base k left addr p =
    let (e, a, q) = IsPool-step p in rw (e, ne→== (base + 24 * k) 0 (omega (arith, p.pos))) (a, q)

-- The pages of a pool come out in order, each of them once; the call after the last answers -1 and
-- changes nothing.
pub take_pages_lem :
    (left : ℕ) (s : Pages) (base k : ℕ) (addr : ℕ → ℕ)
    → IsPool s.mem s.free_list_head base addr k left
    → let (pages, t) = take_pages left s in
      (pages ≡ pages_from addr k left) × (get_next_free_page t ≡ (2 ^ 64 - 1, t))
unfolding take_pages
take_pages_lem zero s base k addr p =
    (refl, unfold get_next_free_page in rw (eq→== s.free_list_head 0 p.first))
take_pages_lem (suc left) s base k addr p =
    let (e, q) = get_next_free_page_step s base k left addr p in
    let (all, stop) = take_pages_lem left (get_next_free_page s).1 base (suc k) addr q in
    (rw (e, all), stop)
