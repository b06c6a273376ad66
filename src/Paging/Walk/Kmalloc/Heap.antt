-- ===== src/Paging/Walk/Kmalloc/Heap.antt =====
-- One `kmalloc_user` request after the other, inside one page table.
use sbunix_public.Base.{ℕ, suc, ◌+◌, ◌*◌, ◌^◌, ◌<◌, ◌≤◌, ◌≡◌, ◌≢◌, arith, ap, ◌∙◌, Option, ok}
use sbunix_public.Memory.{Memory}
use sbunix_public.Paging.Address.{pagesize}
use sbunix_public.Paging.FreeList.{pages_for}
use sbunix_public.Paging.Walk.{Machine, page_user, page_walk_user, kmalloc_user}
use sbunix_public.Paging.Walk.Mmu.{IsX86}
use sbunix_public.Paging.Walk.Level.{IsReady}
use sbunix_public.Paging.Walk.PageWalk.{page_user-IsFlags}
use sbunix_public.Paging.Walk.Kmalloc.{finish_kmalloc_lem, pages_for_one}
use sbunix_public.Paging.Walk.Kmalloc.Loop.{AtPage, IsFree, loop_fills}
use sbunix_public.Paging.Walk.Kmalloc.Pages.{tops_page}

-- A machine that can serve `c` requests of up to a page: the list has the pages, page 0 not among
-- them, and the table `t1` at the top of the addresses has the entries, none of them valid.
pub record IsHeap (base rest : ℕ) (addr : ℕ → ℕ) (t3 t2 t1 : ℕ) (s : Machine) (c : ℕ) : Type 1 where
  pub used : ℕ → Type 0
  pub k : ℕ
  pub i : ℕ
  pub ready : IsReady s used base addr k (2 * c + rest)
  pub at : 0 < 2 * c → AtPage s used s.top_virtual_address i t3 t2 t1
  pub free : IsFree s i t1 (2 * c)
  pub live : (j : ℕ) → j < 2 * c → addr (k + j) ≢ 0
  pub small : s.top_virtual_address + 8192 * c < 2 ^ 64
  pub pos : 0 < s.top_virtual_address

module _ (translate : Memory → ℕ → ℕ → Option ℕ) (x86 : IsX86 translate) (base rest : ℕ)
    (addr : ℕ → ℕ) (t3 t2 t1 : ℕ) where
  abbrev pub Heap : Machine → ℕ → Type 1
  Heap s c = IsHeap base rest addr t3 t2 t1 s c

  -- One request.
  pub kmalloc_user_step :
      (s : Machine) (c size : ℕ)
      → Heap s (suc c)
      → 0 < size
      → size ≤ 4096
      → (t : Machine) × (kmalloc_user translate size s ≡ ok (s.top_virtual_address, t))
        × (t.top_virtual_address ≡ s.top_virtual_address + 8192)
        × Heap t c
  unfolding kmalloc_user page_walk_user
  kmalloc_user_step s c size h lo hi =
      let v = s.top_virtual_address in
      let pages : 2 * suc c + rest ≡ 2 + (2 * c + rest) = omega arith in
      let entries : 2 * suc c ≡ 2 + 2 * c = omega arith in
      let (t, run, fill, top, left) =
        loop_fills translate x86 page_user pagesize page_user-IsFlags base (2 * c + rest) addr t3 t2
          t1 2 (2 * c) s h.used h.k v h.i (rw pages at h.ready) (λ some. h.at (omega arith))
          (rw entries at h.free) (λ j lt. h.live j (omega arith)) (omega (arith, h.small)) in
      let top' : t.top_virtual_address ≡ v + 8192 = top ∙ tops_page 2 v (omega (arith, h.small)) in
      (
        t,
        finish_kmalloc_lem translate (page_walk_user translate) pagesize (pages_for size + 1) 2 v s
            t (ap (λ (m : ℕ). m + 1) (pages_for_one size lo hi)) run,
        top',
        record {
          used = left.used';
          k = h.k + 2;
          i = h.i + 2;
          ready = left.ready;
          at = λ some. rw top' (left.at some);
          free = left.free;
          live = λ j lt.
              let e : h.k + 2 + j ≡ h.k + (2 + j) = omega arith in
              rw e (h.live (2 + j) (omega arith));
          small = omega (arith, h.small, top');
          pos = omega (arith, top');
        },
      )
