-- ===== src/Paging/Walk/Kmalloc.antt =====
-- The `kmalloc` family of sys/paging.c: pages from the list, mapped one behind the other.
pub mod Next
pub mod Loop
pub mod Pages
pub mod Heap
mod Tests
use sbunix_public.Base.{
  ℕ, zero, suc, ◌+◌, ◌*◌, ◌/◌, ◌%◌, ◌^◌, ◌<◌, ◌≤◌, ◌≡◌, ◌≢◌, ◌⊎◌, inl, inr, arith, refl, ap, sym,
  ◌∙◌, Option, some, Run, ok, ◌>>=◌, ne→==,
}
use sbunix_public.Memory.{Memory, store, add64}
use sbunix_public.Paging.Address.{is_valid_page, pagesize}
use sbunix_public.Paging.FreeList.{pages_for, get_next_free_page_kmalloc}
use sbunix_public.Paging.FreeList.Reserve.{pages_for_least}
use sbunix_public.Paging.FreeList.Kmalloc.{
  get_next_free_page_kmalloc_step, get_next_free_page_kmalloc_mem,
}
use sbunix_public.Paging.Walk.{
  Machine, page_kernel, page_user, page_walk, page_walk_user, walk_pml4, kmalloc_loop,
  finish_kmalloc, kmalloc, kmalloc_top_virtual_address_user,
}
use sbunix_public.Paging.Walk.Mmu.{pml4_index, pdpe_index, pgd_index, pte_index, IsX86}
use sbunix_public.Paging.Walk.Entries.{IsTable, IsFlags, Refers}
use sbunix_public.Paging.Walk.Level.{IsReady, WithPage, taken, take_Refers, take_IsReady}
use sbunix_public.Paging.Walk.Maps.{
  HasPdpt, HasPgd, HasPt, Missing, no_pdpt, no_pgd, no_pt, no_page, Mapped,
}
use sbunix_public.Paging.Walk.PageWalk.{Maps, walk-Maps, page_kernel-IsFlags, page_user-IsFlags}

-- What a page taken from the pool leaves of the tables.
module _ (s : Machine) (used : ℕ → Type 0) (base : ℕ) (addr : ℕ → ℕ) (k left : ℕ)
    (ready : IsReady s used base addr k (suc left)) (v : ℕ) where
  pub taken_entry :
      (t i : ℕ) → used t → i < 512 → (taken s).pages.mem (t + 8 * i) ≡ s.pages.mem (t + 8 * i)
  unfolding store
  taken_entry t i u h =
      rw
        (
          get_next_free_page_kmalloc_mem s.pages base k left addr ready.pool,
          ne→== (t + 8 * i) (base + 24 * k + 8) (omega (arith, (ready.tables t u).1)),
        )
        refl

  pub taken-HasPdpt :
      (t3 : ℕ) → HasPdpt s used v t3 → HasPdpt (taken s) (WithPage used (addr k)) v t3
  taken-HasPdpt t3 has = record {
    inside = inr has.inside;
    entry =
        take_Refers s used base addr k left ready s.cr3 (pml4_index v) t3 ready.root (omega arith)
          has.entry;
    apart = has.apart;
  }

  pub taken-HasPgd :
      (t3 t2 : ℕ) → HasPgd s used v t3 t2 → HasPgd (taken s) (WithPage used (addr k)) v t3 t2
  taken-HasPgd t3 t2 has = record {
    above = taken-HasPdpt t3 has.above;
    inside = inr has.inside;
    entry =
        take_Refers s used base addr k left ready t3 (pdpe_index v) t2 has.above.inside
          (omega arith) has.entry;
    apart = has.apart;
    apart' = has.apart';
  }

  pub taken-HasPt :
      (t3 t2 t1 : ℕ) → HasPt s used v t3 t2 t1 → HasPt (taken s) (WithPage used (addr k)) v t3 t2 t1
  taken-HasPt t3 t2 t1 has = record {
    above = taken-HasPgd t3 t2 has.above;
    inside = inr has.inside;
    entry =
        take_Refers s used base addr k left ready t2 (pgd_index v) t1 has.above.inside (omega arith)
          has.entry;
    apart = has.apart;
    apart' = has.apart';
    apart'' = has.apart'';
  }

  taken_invalid :
      (t i : ℕ)
      → used t
      → i < 512
      → is_valid_page (s.pages.mem (t + 8 * i)) ≢ 1
      → is_valid_page ((taken s).pages.mem (t + 8 * i)) ≢ 1
  taken_invalid t i u h ne e = ne (ap is_valid_page (sym (taken_entry t i u h)) ∙ e)

  taken-Missing : Missing s used v → Missing (taken s) (WithPage used (addr k)) v
  taken-Missing (no_pdpt ne) =
      no_pdpt (taken_invalid s.cr3 (pml4_index v) ready.root (omega arith) ne)
  taken-Missing (no_pgd t3 has ne) =
      no_pgd t3 (taken-HasPdpt t3 has) (taken_invalid t3 (pdpe_index v) has.inside (omega arith) ne)
  taken-Missing (no_pt t3 t2 has ne) =
      no_pt t3 t2 (taken-HasPgd t3 t2 has)
        (taken_invalid t2 (pgd_index v) has.inside (omega arith) ne)
  taken-Missing (no_page t3 t2 t1 has ne) =
      no_page t3 t2 t1 (taken-HasPt t3 t2 t1 has)
        (taken_invalid t1 (pte_index v) has.inside (omega arith) ne)

-- The call of a round for its page.
pub page_of_round :
    (s : Machine) (used : ℕ → Type 0) (base : ℕ) (addr : ℕ → ℕ) (k left : ℕ)
    → IsReady s used base addr k (suc left)
    → (get_next_free_page_kmalloc s.pages).0 ≡ addr k
page_of_round s used base addr k left ready =
    (get_next_free_page_kmalloc_step s.pages base k left addr ready.pool).0

module _ (translate : Memory → ℕ → ℕ → Option ℕ) (x86 : IsX86 translate) (flags v : ℕ)
    (valid : IsFlags flags) (other : pml4_index v ≢ 510) (s : Machine) (used : ℕ → Type 0)
    (base k left : ℕ) (addr : ℕ → ℕ) (step : ℕ)
    (ready : IsReady s used base addr k (suc (suc (suc (suc left))))) (live : addr k ≢ 0)
    (missing : Missing s used v) where
  -- One round of the loop, from tables that may be missing at any level.
  one_round :
      (t : Machine) × (kmalloc_loop translate (walk_pml4 translate flags) step 1 v s ≡ ok (1, t))
      × (t.cr3 ≡ s.cr3)
      × (translate t.pages.mem t.cr3 v ≡ some (addr k + v % 4096))
      × (t.top_virtual_address ≡ add64 s.top_virtual_address step)
  unfolding kmalloc_loop
  one_round =
      let spare = (ready.spare k (omega arith) (omega arith)).0 in
      let ready' = take_IsReady s used base addr k (suc (suc (suc left))) ready in
      let (t, run, cr3, to, top) =
        walk-Maps translate x86 flags (addr k) v valid spare other (taken s)
          (WithPage used (addr k)) base (suc k) left addr ready'
          (taken-Missing s used base addr k (suc (suc (suc left))) ready v missing) in
      (
        record t { top_virtual_address = add64 t.top_virtual_address step },
        rw
            (
              page_of_round s used base addr k (suc (suc (suc left))) ready,
              ne→== (addr k) 0 live,
              run,
            )
            refl,
        cr3,
        to,
        ap (λ (x : ℕ). add64 x step) top,
      )

pub pages_for_one : (size : ℕ) → 0 < size → size ≤ 4096 → pages_for size ≡ 1
pages_for_one size lo hi = omega (arith, pages_for_least size)

-- A loop whose rounds all succeed ends in the address that it began with.
pub finish_kmalloc_lem :
    (translate : Memory → ℕ → ℕ → Option ℕ) (walk : ℕ → ℕ → Machine → Run (ℕ × Machine))
    (step m n v : ℕ) (s t : Machine)
    → m ≡ n
    → kmalloc_loop translate walk step n v s ≡ ok (1, t)
    → (kmalloc_loop translate walk step m v s >>= finish_kmalloc translate v) ≡ ok (v, t)
unfolding finish_kmalloc
finish_kmalloc_lem translate walk step m n v s t e run = rw (e, run) refl

-- A request for one page at the top of the addresses succeeds wherever the first entry that is not
-- valid for the top stands, when four pages are left and the next of them is not page 0. `kmalloc`
-- and `kmalloc_top_virtual_address_user` answer the top, and `kmalloc` moves it up by a page. CR3 is
-- the same, and the processor translates the address into the next page of the list.
pub kmalloc_one_page :
    (translate : Memory → ℕ → ℕ → Option ℕ) (s : Machine) (used : ℕ → Type 0) (base k left : ℕ)
    (addr : ℕ → ℕ) (size : ℕ)
    → IsX86 translate
    → IsReady s used base addr k (suc (suc (suc (suc left))))
    → addr k ≢ 0
    → 0 < size
    → size ≤ 4096
    → pml4_index s.top_virtual_address ≢ 510
    → Missing s used s.top_virtual_address
    → let v = s.top_virtual_address in
      ((t : Machine) × (kmalloc translate size s ≡ ok (v, t))
        × (t.cr3 ≡ s.cr3)
        × (translate t.pages.mem t.cr3 v ≡ some (addr k + v % 4096))
        × (t.top_virtual_address ≡ add64 v 4096))
      × ((t : Machine) × (kmalloc_top_virtual_address_user translate size v s ≡ ok (v, t))
          × (t.cr3 ≡ s.cr3)
          × (translate t.pages.mem t.cr3 v ≡ some (addr k + v % 4096)))
unfolding kmalloc kmalloc_top_virtual_address_user page_walk page_walk_user
kmalloc_one_page translate s used base k left addr size x86 ready live lo hi other missing =
    let v = s.top_virtual_address in
    let one = pages_for_one size lo hi in
    let (t, run, cr3, to, top) =
      one_round translate x86 page_kernel v page_kernel-IsFlags other s used base k left addr
        pagesize ready live missing in
    let (t', run', cr3', to', top') =
      one_round translate x86 page_user v page_user-IsFlags other s used base k left addr 0 ready
        live missing in
    (
      (
        t,
        finish_kmalloc_lem translate (page_walk translate) pagesize (pages_for size) 1 v s t one
            run,
        cr3,
        to,
        top,
      ),
      (
        t',
        finish_kmalloc_lem translate (page_walk_user translate) 0 (pages_for size) 1 v s t' one
            run',
        cr3',
        to',
      ),
    )
