-- ===== src/Elf/Heap.antt =====
-- `load_elf_vmas` of sys/elf64.c with the `kmalloc_user` of sys/paging.c as its allocator.
mod Tests
use sbunix_public.Base.{
  ℕ, zero, suc, ◌+◌, ◌*◌, ◌%◌, ◌^◌, ◌<◌, ◌≤◌, ◌≡◌, ◌≢◌, arith, sym, ap, ◌∙◌, refl, Option, Run, ok,
  ◌>>=◌, List, [], ◌∷◌, length,
}
use sbunix_public.Memory.{Memory, add64}
use sbunix_public.Paging.Address.{pagesize}
use sbunix_public.Paging.FreeList.{pages_for}
use sbunix_public.Paging.Walk.{Machine, page_user, page_walk_user, kmalloc_user}
use sbunix_public.Paging.Walk.Mmu.{IsX86}
use sbunix_public.Paging.Walk.Level.{IsReady}
use sbunix_public.Paging.Walk.PageWalk.{page_user-IsFlags}
use sbunix_public.Paging.Walk.Kmalloc.{finish_kmalloc_lem, pages_for_one}
use sbunix_public.Paging.Walk.Kmalloc.Loop.{AtPage, IsFree, tops, IsReadyAfter, loop_fills}
use sbunix_public.Paging.Walk.Kmalloc.Pages.{tops_page}
use sbunix_public.Paging.Walk.Kmalloc.Heap.{IsHeap, kmalloc_user_step}
use sbunix_public.Elf.{Store, read_ehdr, load_elf_vmas, sizeof_vm_area, sizeof_mm}
use sbunix_public.Elf.Tables.{segments}
use sbunix_public.Elf.Areas.{Supplies, done, call, IsApart, AreDistinct, none, and, IsListed}
use sbunix_public.Elf.Load.{purposes, load_elf_vmas_lem}

-- The addresses of `c` requests, from `top` on: each takes a page and one page more.
unfoldable pub addresses : (top c : ℕ) → List ℕ
addresses top zero = []
addresses top (suc c) = top ∷ addresses (top + 8192) c

length-addresses : (top c : ℕ) → length (addresses top c) ≡ c
unfolding addresses
length-addresses top zero = refl
length-addresses top (suc c) = ap suc (length-addresses (top + 8192) c)

addresses-IsApart : (b top c : ℕ) → b < top → IsApart b (addresses top c)
unfolding addresses
addresses-IsApart b top zero h = none
addresses-IsApart b top (suc c) h =
    and top (addresses (top + 8192) c) (omega arith)
      (addresses-IsApart b (top + 8192) c (omega arith))

addresses-AreDistinct : (top c : ℕ) → AreDistinct (addresses top c)
unfolding addresses
addresses-AreDistinct top zero = none
addresses-AreDistinct top (suc c) =
    and top (addresses (top + 8192) c) (addresses-IsApart top (top + 8192) c (omega arith))
      (addresses-AreDistinct (top + 8192) c)

module _ (translate : Memory → ℕ → ℕ → Option ℕ) (x86 : IsX86 translate) (base rest : ℕ)
    (addr : ℕ → ℕ) (t3 t2 t1 : ℕ) where
  kmalloc_user-Supplies :
      (c size : ℕ) (s : Machine)
      → IsHeap base rest addr t3 t2 t1 s c
      → 0 < size
      → size ≤ 4096
      → (t : Machine) × Supplies
          (kmalloc_user translate)
          size
          s
          (addresses s.top_virtual_address c)
          t
        × (t.top_virtual_address ≡ s.top_virtual_address + 8192 * c)
  unfolding addresses
  kmalloc_user-Supplies zero size s h lo hi = (s, done, omega arith)
  kmalloc_user-Supplies (suc c) size s h lo hi =
      let (t, run, top, h') =
        kmalloc_user_step translate x86 base rest addr t3 t2 t1 s c size h lo hi in
      let (u, rest', top') = kmalloc_user-Supplies c size t h' lo hi in
      (
        u,
        call s.top_virtual_address (addresses (s.top_virtual_address + 8192) c) run
            (omega (arith, h.pos)) (rw top at rest'),
        top' ∙ omega (arith, top),
      )

  -- A request for an `mm_struct`, and `c` for areas.
  structures :
      (c : ℕ) (s : Machine)
      → IsHeap base rest addr t3 t2 t1 s (suc c)
      → (h1 : Machine) × (h2 : Machine) × (kmalloc_user translate sizeof_mm s
          ≡ ok (s.top_virtual_address, h1))
        × Supplies
            (kmalloc_user translate)
            sizeof_vm_area
            h1
            (addresses (s.top_virtual_address + 8192) c)
            h2
        × (h2.top_virtual_address ≡ s.top_virtual_address + 8192 * suc c)
  structures c s h =
      let (h1, run, top, heap1) =
        kmalloc_user_step translate x86 base rest addr t3 t2 t1 s c sizeof_mm h (omega arith)
          (omega arith) in
      let (h2, supply, top2) =
        kmalloc_user-Supplies c sizeof_vm_area h1 heap1 (omega arith) (omega arith) in
      (
        h1,
        h2,
        run,
        coe 0 1 (i. Supplies (kmalloc_user translate) sizeof_vm_area h1 (addresses (top i) c) h2)
            supply,
        top2 ∙ omega (arith, top),
      )

-- The two parts together: on a machine that can serve them, `load_elf_vmas` takes its structures
-- from `kmalloc_user`, two pages for each, from the top of the addresses on. The `mm_struct` is at
-- the top, and behind it are the areas, in the order of the list: those of the segments of type
-- PT_LOAD, the stack and the heap. The top moves up by 8192 bytes for each structure.
pub load_elf_vmas_kmalloc :
    (translate : Memory → ℕ → ℕ → Option ℕ) (base rest : ℕ) (addr : ℕ → ℕ) (t3 t2 t1 : ℕ)
    (m : Memory) (ehdr : ℕ) (s : Store Machine)
    → IsX86 translate
    → IsHeap base rest addr t3 t2 t1 s.heap (suc (suc (suc (length (segments m ehdr)))))
    → (let top = s.heap.top_virtual_address in
        let areas = suc (suc (length (segments m ehdr))) in
        (t : Store Machine) × (load_elf_vmas (kmalloc_user translate) m ehdr s ≡ ok (top, t))
        × IsListed t.areas (t.mms top).mmap (addresses (top + 8192) areas) (purposes m ehdr)
        × ((t.mms top).e_entry ≡ (read_ehdr m ehdr).e_entry)
        × ((t.mms top).elf_head ≡ ehdr)
        × (t.heap.top_virtual_address ≡ top + 8192 * (1 + areas)))
unfolding addresses
load_elf_vmas_kmalloc translate base rest addr t3 t2 t1 m ehdr s x86 h =
    let n = length (segments m ehdr) in
    let v = s.heap.top_virtual_address in
    let (h1, h2, run, supply, top) =
      structures translate x86 base rest addr t3 t2 t1 (suc (suc n)) s.heap h in
    let (t, go, heap', listed, entry, head, areas, mms) =
      load_elf_vmas_lem (kmalloc_user translate) m ehdr v (v + 8192)
        (addresses (v + 8192 + 8192) (suc n)) s h1 h2 run (omega (arith, h.pos))
        (ap suc (length-addresses (v + 8192 + 8192) (suc n)) ∙ omega arith) supply
        (addresses-AreDistinct (v + 8192) (suc (suc n))) in
    (
      t,
      go,
      listed,
      entry,
      head,
      ap (λ (u : Machine). u.top_virtual_address) heap' ∙ top ∙ omega arith,
    )
