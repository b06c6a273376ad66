-- ===== src/Paging/Walk/Kmalloc/Pages.antt =====
-- Requests for several pages of the `kmalloc` family, inside one page table.

use sbunix_public.Base.{
  ℕ, zero, suc, ◌+◌, ◌*◌, ◌%◌, ◌^◌, ◌<◌, ◌≤◌, ◌≡◌, ◌≢◌, inl, arith, sym, ap, ◌∙◌, refl, Option,
  some, Run, ok,
}
use sbunix_public.Memory.{Memory, add64}
use sbunix_public.Paging.Address.{pagesize}
use sbunix_public.Paging.FreeList.{pages_for}
use sbunix_public.Paging.Walk.{
  Machine, page_kernel, page_user, page_walk, page_walk_user, walk_pml4, kmalloc_loop, kmalloc,
  kmalloc_user, kmalloc_top_virtual_address_kernel, kmalloc_top_virtual_address_user,
}
use sbunix_public.Paging.Walk.Mmu.{pml4_index, pdpe_index, pgd_index, pte_index, IsX86}
use sbunix_public.Paging.Walk.Entries.{IsFlags, translate-Refers}
use sbunix_public.Paging.Walk.Level.{IsReady}
use sbunix_public.Paging.Walk.Maps.{HasPt}
use sbunix_public.Paging.Walk.PageWalk.{page_kernel-IsFlags, page_user-IsFlags}
use sbunix_public.Paging.Walk.Kmalloc.{finish_kmalloc_lem}
use sbunix_public.Paging.Walk.Kmalloc.Loop.{IsFree, AtPage, IsFilled, same_Refers, tops, loop_fills}

IsFree-fewer : (s : Machine) (i t1 n : ℕ) → IsFree s i t1 (n + 1) → IsFree s i t1 n
IsFree-fewer s i t1 n h = record {
  room = omega (arith, h.room);
  free = λ j lt. h.free j (omega arith);
}

-- A request answers `v`, moves the top `n` pages up, and the pages from `addr k` on are at `v`.
abbrev pub IsAnswer :
    (Memory → ℕ → ℕ → Option ℕ) → Machine → (ℕ → ℕ) → ℕ → Run (ℕ × Machine) → ℕ → ℕ → Type 0
IsAnswer translate s addr k r v n =
    (t : Machine) × (r ≡ ok (v, t))
    × (t.cr3 ≡ s.cr3)
    × ((j : ℕ)
        → j < n
        → translate t.pages.mem t.cr3 (v + 4096 * j) ≡ some (addr (k + j) + v % 4096))
    × (t.top_virtual_address ≡ v + 4096 * n)

-- The same, at an address of the caller's: the top stays.
abbrev pub IsAnswerAt :
    (Memory → ℕ → ℕ → Option ℕ) → Machine → (ℕ → ℕ) → ℕ → Run (ℕ × Machine) → ℕ → ℕ → Type 0
IsAnswerAt translate s addr k r v n =
    (t : Machine) × (r ≡ ok (v, t))
    × (t.cr3 ≡ s.cr3)
    × ((j : ℕ)
        → j < n
        → translate t.pages.mem t.cr3 (v + 4096 * j) ≡ some (addr (k + j) + v % 4096))
    × (t.top_virtual_address ≡ s.top_virtual_address)

pub tops_page : (n top : ℕ) → top + 4096 * n < 2 ^ 64 → tops pagesize n top ≡ top + 4096 * n
unfolding tops
tops_page zero top small = omega arith
tops_page (suc n) top small =
    let next : add64 top pagesize ≡ top + 4096 = omega arith in
    ap (tops pagesize n) next ∙ tops_page n (top + 4096) (omega arith) ∙ omega arith

tops_0 : (n top : ℕ) → top < 2 ^ 64 → tops 0 n top ≡ top
unfolding tops
tops_0 zero top small = refl
tops_0 (suc n) top small =
    let next : add64 top 0 ≡ top = omega arith in ap (tops 0 n) next ∙ tops_0 n top small

module _ (translate : Memory → ℕ → ℕ → Option ℕ) (x86 : IsX86 translate) (s : Machine)
    (used : ℕ → Type 0) (base k rest : ℕ) (addr : ℕ → ℕ) (t3 t2 t1 : ℕ) where
  -- The translation of a page that the loop mapped.
  page_at :
      (t : Machine) (v n j : ℕ)
      → pte_index v + n ≤ 512
      → j < n
      → IsReady s used base addr k (n + rest)
      → IsFilled s t used addr k (pte_index v) t1 n
      → AtPage s used v (pte_index v) t3 t2 t1
      → translate t.pages.mem t.cr3 (v + 4096 * j) ≡ some (addr (k + j) + v % 4096)
  page_at t v n j room lt ready fill at =
      let w = v + 4096 * j in
      let has = at.has in
      translate-Refers translate x86 t.pages.mem t.cr3 w t3 t2 t1 (addr (k + j))
        (same_Refers (omega (arith, fill.cr3)) refl (
          fill.keep s.cr3 (pml4_index v) t3 ready.root (omega arith) (inl (λ e. has.apart (sym e)))
            has.above.above.entry))
        (same_Refers (omega arith) refl (
          fill.keep t3 (pdpe_index v) t2 has.above.above.inside (omega arith)
            (inl (λ e. has.apart' (sym e))) has.above.entry))
        (same_Refers (omega arith) refl (
          fill.keep t2 (pgd_index v) t1 has.above.inside (omega arith)
            (inl (λ e. has.apart'' (sym e))) has.entry))
        (same_Refers (omega arith) refl (fill.filled j lt))
      ∙ ap some (omega arith)

  -- What the requests have in common.
  loop_maps :
      (v n flags step : ℕ)
      → IsFlags flags
      → IsReady s used base addr k (n + rest)
      → AtPage s used v (pte_index v) t3 t2 t1
      → IsFree s (pte_index v) t1 n
      → ((j : ℕ) → j < n → addr (k + j) ≢ 0)
      → v + 4096 * n < 2 ^ 64
      → (t : Machine) × (kmalloc_loop translate (walk_pml4 translate flags) step n v s ≡ ok (1, t))
        × (t.cr3 ≡ s.cr3)
        × ((j : ℕ)
            → j < n
            → translate t.pages.mem t.cr3 (v + 4096 * j) ≡ some (addr (k + j) + v % 4096))
        × (t.top_virtual_address ≡ tops step n s.top_virtual_address)
  loop_maps v n flags step valid ready at free live small =
      let none : n + 0 ≡ n = omega arith in
      let (t, run, fill, top, left) =
        loop_fills translate x86 flags step valid base rest addr t3 t2 t1 n 0 s used k v
          (pte_index v) ready (λ h. at) (rw none free) live small in
      (t, run, fill.cr3, λ j lt. page_at t v n j free.room lt ready fill at, top)

-- `kmalloc` and `kmalloc_user` map pages that the last table has room for: the `n` pages that hold
-- `size` bytes, and `kmalloc_user` one more. The request answers the top of the addresses as it was
-- and moves it up by as many pages; CR3 is the same, and the processor translates the addresses of
-- the run, page by page, into the next pages of the list. The tables for the first address are
-- there, the run does not cross into another table or past 2^64, its entries are not valid, and the
-- list has the pages, page 0 not among them.
pub kmalloc_pages :
    (translate : Memory → ℕ → ℕ → Option ℕ) (s : Machine) (used : ℕ → Type 0)
    (base k rest n size : ℕ) (addr : ℕ → ℕ) (t3 t2 t1 : ℕ)
    → IsX86 translate
    → n ≡ pages_for size
    → IsReady s used base addr k (n + 1 + rest)
    → pml4_index s.top_virtual_address ≢ 510
    → HasPt s used s.top_virtual_address t3 t2 t1
    → IsFree s (pte_index s.top_virtual_address) t1 (n + 1)
    → ((j : ℕ) → j < n + 1 → addr (k + j) ≢ 0)
    → s.top_virtual_address + 4096 * (n + 1) < 2 ^ 64
    → IsAnswer translate s addr k (kmalloc translate size s) s.top_virtual_address n
      × IsAnswer translate s addr k (kmalloc_user translate size s) s.top_virtual_address (n + 1)
unfolding kmalloc kmalloc_user page_walk page_walk_user
kmalloc_pages translate s used base k rest n size addr t3 t2 t1 x86 sum ready other has free live
      small =
    let v = s.top_virtual_address in
    let at : AtPage s used v (pte_index v) t3 t2 t1 = record {
      has = has;
      index = refl;
      other = other;
    } in
    let more : n + 1 + rest ≡ n + (1 + rest) = omega arith in
    let (t, run, cr3, to, top) =
      loop_maps translate x86 s used base k (1 + rest) addr t3 t2 t1 v n page_kernel pagesize
        page_kernel-IsFlags (rw more at ready) at (IsFree-fewer s (pte_index v) t1 n free)
        (λ j lt. live j (omega arith)) (omega arith) in
    let (t', run', cr3', to', top') =
      loop_maps translate x86 s used base k rest addr t3 t2 t1 v (n + 1) page_user pagesize
        page_user-IsFlags ready at free live small in
    (
      (
        t,
        finish_kmalloc_lem translate (page_walk translate) pagesize (pages_for size) n v s t
            (sym sum) run,
        cr3,
        to,
        top ∙ tops_page n v (omega arith),
      ),
      (
        t',
        finish_kmalloc_lem translate (page_walk_user translate) pagesize (pages_for size + 1)
            (n + 1) v s t' (ap (λ (m : ℕ). m + 1) (sym sum)) run',
        cr3',
        to',
        top' ∙ tops_page (n + 1) v small,
      ),
    )

-- The requests at an address of the caller's, `kmalloc_top_virtual_address_kernel` and
-- `kmalloc_top_virtual_address_user`, under the same conditions for `n` pages at that address: both
-- answer it, and the processor translates the addresses of the run into the next pages of the list.
-- CR3 and the top of the addresses stay.
pub kmalloc_pages_at :
    (translate : Memory → ℕ → ℕ → Option ℕ) (s : Machine) (used : ℕ → Type 0)
    (base k rest n size v : ℕ) (addr : ℕ → ℕ) (t3 t2 t1 : ℕ)
    → IsX86 translate
    → n ≡ pages_for size
    → IsReady s used base addr k (n + rest)
    → pml4_index v ≢ 510
    → HasPt s used v t3 t2 t1
    → IsFree s (pte_index v) t1 n
    → ((j : ℕ) → j < n → addr (k + j) ≢ 0)
    → v + 4096 * n < 2 ^ 64
    → s.top_virtual_address < 2 ^ 64
    → IsAnswerAt translate s addr k (kmalloc_top_virtual_address_kernel translate size v s) v n
      × IsAnswerAt translate s addr k (kmalloc_top_virtual_address_user translate size v s) v n
unfolding kmalloc_top_virtual_address_kernel kmalloc_top_virtual_address_user page_walk
    page_walk_user
kmalloc_pages_at translate s used base k rest n size v addr t3 t2 t1 x86 sum ready other has free
      live small top64 =
    let at : AtPage s used v (pte_index v) t3 t2 t1 = record {
      has = has;
      index = refl;
      other = other;
    } in
    let (t, run, cr3, to, top) =
      loop_maps translate x86 s used base k rest addr t3 t2 t1 v n page_kernel 0 page_kernel-IsFlags
        ready at free live small in
    let (t', run', cr3', to', top') =
      loop_maps translate x86 s used base k rest addr t3 t2 t1 v n page_user 0 page_user-IsFlags
        ready at free live small in
    let stay = tops_0 n s.top_virtual_address top64 in
    (
      (
        t,
        finish_kmalloc_lem translate (page_walk translate) 0 (pages_for size) n v s t (sym sum) run,
        cr3,
        to,
        top ∙ stay,
      ),
      (
        t',
        finish_kmalloc_lem translate (page_walk_user translate) 0 (pages_for size) n v s t'
            (sym sum) run',
        cr3',
        to',
        top' ∙ stay,
      ),
    )
