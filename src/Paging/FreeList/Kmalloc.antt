-- ===== src/Paging/FreeList/Kmalloc.antt =====
-- `set_new_free_list_head` and `get_next_free_page_kmalloc` of sys/paging.c: the same list, reached
-- through the kernel's addresses.
use sbunix_public.Base.{◌≤◌, ◌⊎◌, ℕ, suc, ◌+◌, ◌*◌, ◌^◌, ◌<◌, ◌≡◌, ◌≢◌, refl, arith, ne→==, ◌∙◌, ap}
use sbunix_public.Memory.{store, add64}
use sbunix_public.Paging.Address.{kernbase, behind}
use sbunix_public.Paging.FreeList.{Pages, set_new_free_list_head, get_next_free_page_kmalloc}
use sbunix_public.Paging.FreeList.Take.{head_of, IsPool, IsPool-step}

-- A pool whose head is kept as a kernel address, an address of `kernbase` for NULL.
pub record IsKernelPool (s : Pages) (base : ℕ) (addr : ℕ → ℕ) (k left : ℕ) : Type 0 where
  pub pool : IsPool s.mem (head_of base k left) base addr k left
  pub head : s.free_list_head_kmalloc ≡ add64 kernbase (head_of base k left)

behind-kernbase : (h : ℕ) → h < 2 ^ 31 → behind (add64 kernbase h) ≡ h
behind-kernbase h small = ground arith

-- `set_new_free_list_head` turns the list of the boot into the kernel's.
pub set_new_free_list_head-IsKernelPool :
    (s : Pages) (base k left : ℕ) (addr : ℕ → ℕ)
    → IsPool s.mem s.free_list_head base addr k left
    → IsKernelPool (set_new_free_list_head s) base addr k left
unfolding set_new_free_list_head
set_new_free_list_head-IsKernelPool s base k left addr p = record {
  pool = record { pos = p.pos; small = p.small; list = p.list; first = refl };
  head = omega (arith, p.first);
}

-- As long as a page is left, `get_next_free_page_kmalloc` answers the next one and moves the head on.
pub get_next_free_page_kmalloc_step :
    (s : Pages) (base k left : ℕ) (addr : ℕ → ℕ)
    → IsKernelPool s base addr k (suc left)
    → ((get_next_free_page_kmalloc s).0 ≡ addr k)
      × IsKernelPool (get_next_free_page_kmalloc s).1 base addr (suc k) left
unfolding get_next_free_page_kmalloc
get_next_free_page_kmalloc_step s base k left addr p =
    let (e, a, q) = IsPool-step p.pool in
    let b : behind s.free_list_head_kmalloc ≡ base + 24 * k =
      ap behind p.head ∙ behind-kernbase (base + 24 * k) (omega (arith, p.pool.small)) in
    let n : s.free_list_head_kmalloc ≢ 0 = omega (arith, p.head, p.pool.small) in
    rw (ne→== s.free_list_head_kmalloc 0 n, b)
      (
        a,
        record {
          pool = record { pos = q.pos; small = q.small; list = q.list; first = refl };
          head = ap (add64 kernbase) q.first;
        },
      )

-- All that a call changes in memory is the status word of the structure that it takes.
pub get_next_free_page_kmalloc_mem :
    (s : Pages) (base k left : ℕ) (addr : ℕ → ℕ)
    → IsKernelPool s base addr k (suc left)
    → (get_next_free_page_kmalloc s).1.mem ≡ store s.mem (base + 24 * k + 8) 1
unfolding get_next_free_page_kmalloc
get_next_free_page_kmalloc_mem s base k left addr p =
    let b : behind s.free_list_head_kmalloc ≡ base + 24 * k =
      ap behind p.head ∙ behind-kernbase (base + 24 * k) (omega (arith, p.pool.small)) in
    let n : s.free_list_head_kmalloc ≢ 0 = omega (arith, p.head, p.pool.small) in
    rw (ne→== s.free_list_head_kmalloc 0 n, b)

-- The structures of a list of `n` stand outside page `t`.
abbrev pub Outside : ℕ → ℕ → ℕ → Type 0
Outside base n t = (t + 4096 ≤ base) ⊎ (base + 24 * n ≤ t)

-- A write to such a page leaves the pool as it is.
pub store-IsKernelPool :
    (s : Pages) (base k left t i x : ℕ) (addr : ℕ → ℕ)
    → IsKernelPool s base addr k left
    → Outside base (k + left) t
    → i < 512
    → IsKernelPool (record s { mem = store s.mem (t + 8 * i) x }) base addr k left
unfolding store
store-IsKernelPool s base k left t i x addr p out small = record {
  pool = record {
    pos = p.pool.pos;
    small = p.pool.small;
    list = record {
      next = λ j h. ground (arith, p.pool.list.next j);
      end = λ j h. ground (arith, p.pool.list.end j);
      p_addr = λ j h. ground (arith, p.pool.list.p_addr j);
    };
    first = refl;
  };
  head = p.head;
}
