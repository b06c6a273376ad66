-- ===== src/Paging/FreeList/Tests.antt =====
-- Lists of a few pages.
use sbunix_public.Base.{ℕ, ◌+◌, ◌-◌, ◌*◌, ◌^◌, ◌≤◌, ◌≡◌, arith, refl, ok, ◌>>=◌}
use sbunix_public.Memory.{Memory, store, add64}
use sbunix_public.Paging.Address.{kernbase}
use sbunix_public.Paging.FreeList.{
  Pages, initialize_free_list, append_free_list, set_free_list_head, get_next_free_page, pages_for,
}
use sbunix_public.Paging.FreeList.Build.{IsList}
use sbunix_public.Paging.FreeList.Later.{append_free_list_later, joined}
use sbunix_public.Paging.FreeList.Take.{pages_from, take_pages}
use sbunix_public.Paging.FreeList.Reserve.{boot_pages}
use sbunix_public.Paging.FreeList.Kmalloc.{IsKernelPool}

abbrev blank : Pages
blank = record {
  mem = λ _. 0;
  free_list = 7;
  free_list_head = 0;
  free_list_head_kmalloc = 0;
  free_list_page_length = 0;
  free_list_total_pages = 9;
}

-- 400 pages from 2 MB on: the list takes three of them.
boot_pages_example :
    let reqd = pages_for (24 * 400) in
    let left = 400 - reqd in
    (t : Pages) × ((append_free_list 0 0
          (0x20_0000 + 4096 * 400)
          0x20_0000
          (initialize_free_list blank)
        >>= set_free_list_head)
      ≡ ok t)
    × ((take_pages left t).0 ≡ pages_from (λ j. 0x20_0000 + 4096 * j) reqd left)
    × (0x20_0000 + 24 * 400 ≤ 0x20_0000 + 4096 * reqd)
    × (reqd ≤ 400)
    × (get_next_free_page (take_pages left t).1 ≡ (2 ^ 64 - 1, (take_pages left t).1))
boot_pages_example = boot_pages blank 0 0x20_0000 399 (omega arith) (omega arith) (omega arith)

abbrev two_pages : Memory
unfolding store
two_pages =
    store (store (store (store (λ _. 0) 0x10_0000 0x10_0018) 0x10_0010 0x20_0000) 0x10_0018 0)
      0x10_0028 0x20_1000

abbrev addr : ℕ → ℕ
addr j = 0x20_0000 + 4096 * j

abbrev kernel : ℕ → Pages
unfolding store
kernel head = record blank {
  mem = two_pages;
  free_list = 0x10_0000;
  free_list_head_kmalloc = add64 kernbase head;
  free_list_total_pages = 2;
}

two_pages-IsList : IsList two_pages 0x10_0000 addr 2
unfolding store
two_pages-IsList = record {
  next = λ j h. ground arith;
  end = λ j h. ground arith;
  p_addr = λ j h. ground arith;
}

kernel-IsKernelPool : IsKernelPool (kernel 0x10_0018) 0x10_0000 addr 1 1
unfolding store
kernel-IsKernelPool = record {
  pool = record { pos = omega arith; small = omega arith; list = two_pages-IsList; first = refl };
  head = refl;
}

-- A region of one page at 16 MB: two pages are added.
append_free_list_later_example :
    (m : Memory) × (append_free_list 2 0x100_0000 (0x100_0000 + 4096 * 1) 0x10_0000 (kernel 0)
      ≡ ok (record (kernel 0) { mem = m; free_list_total_pages = 2 + 2 }))
    × IsList m 0x10_0000 (joined addr 1 0x100_0000) 4
unfolding store
append_free_list_later_example =
    append_free_list_later (kernel 0) 2 1 1 0x100_0000 0x10_0000 addr (omega arith) (omega arith)
      two_pages-IsList (omega arith) (omega arith) (omega arith) (omega arith)
