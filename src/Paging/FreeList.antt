-- ===== src/Paging/FreeList.antt =====
-- The list of physical pages of sys/paging.c, as words in memory. A `Page` is three words: `next` at
-- its address, `status` 8 bytes on, `p_addr` 16 bytes on. Each loop runs on fuel.
pub mod Build
pub mod Later
pub mod Take
pub mod Kmalloc
pub mod Reserve
mod Tests
use sbunix_public.Base.{
  ℕ, zero, suc, ◌+◌, ◌-◌, ◌*◌, ◌/◌, ◌%◌, ◌^◌, Run, ok, fault, out_of_fuel, ◌>>=◌, ◌>>◌, fault_if,
  ltb, leb, ◌==◌, if◌then◌else◌, ◌&&◌,
}
use sbunix_public.Memory.{Memory, store, clear_words, add64, sub64}
use sbunix_public.Paging.Address.{kernbase, pagesize, round_up, behind}

abbrev pub sizeof_page : ℕ
sizeof_page = 24

abbrev pub allocated : ℕ
allocated = 1

-- The memory and the globals of paging.c that the list uses; 0 is NULL.
pub record Pages : Type 0 where
  pub mem : Memory
  pub free_list : ℕ
  pub free_list_head : ℕ
  pub free_list_head_kmalloc : ℕ
  pub free_list_page_length : ℕ
  pub free_list_total_pages : ℕ

pub initialize_free_list : Pages → Pages
initialize_free_list s = record s { free_list = 0; free_list_total_pages = 0 }

-- Both `memset` calls on page `i`: through its own address and through the kernel's.
unfoldable pub clear_page : Memory → ℕ → Memory
clear_page m i =
    clear_words (clear_words m i (pagesize / 8 / 8)) (behind (add64 kernbase i)) (pagesize / 8 / 8)

-- The first region: a `Page` at `temp` for each page from `i` to before `end`. The result is the
-- memory, the last `Page` and the count.
first_region : ℕ → ℕ → ℕ → ℕ → ℕ → Memory → ℕ → Run (Memory × ℕ × ℕ)
first_region zero end i temp last m total = out_of_fuel
first_region (suc fuel) end i temp last m total =
    let m' = store (store (clear_page m i) (temp + 16) i) temp (temp + sizeof_page) in
    let rest = first_region fuel end (add64 i pagesize) (temp + sizeof_page) temp m' (total + 1) in
    if ltb i end then rest else ok (m, last, total)

-- A later region, behind the `Page` at `temp`; `end` itself is taken too.
later_region : ℕ → ℕ → ℕ → ℕ → Memory → ℕ → Run (Memory × ℕ × ℕ)
later_region zero end i temp m total = out_of_fuel
later_region (suc fuel) end i temp m total =
    let new = temp + sizeof_page in
    let m' = store (clear_page (store m temp new) i) (new + 16) i in
    let rest = later_region fuel end (add64 i pagesize) new m' (total + 1) in
    if leb i end then rest else ok (m, temp, total)

-- `while (temp->next != NULL) temp = temp->next;`
last_page : ℕ → Memory → ℕ → Run ℕ
last_page zero m temp = out_of_fuel
last_page (suc fuel) m temp =
    let rest = last_page fuel m (m temp) in if m temp == 0 then ok temp else rest

-- `temp = last; temp->next = NULL;`
finish : Pages → Memory × ℕ × ℕ → Run Pages
finish s (m, last, total) = do
  fault_if (last == 0)
  ok (record s { mem = store m last 0; free_list_total_pages = total })

-- The argument `walk` is the fuel of the walk to the last page.
append_later : ℕ → ℕ → ℕ → Pages → Run Pages
unfolding later_region last_page finish
append_later walk start end s = do
  last ← last_page walk s.mem s.free_list
  r ← later_region (end / pagesize + 2) end start last s.mem s.free_list_total_pages
  finish s r

append_first : ℕ → ℕ → Pages → Run Pages
unfolding first_region finish
append_first end physfree s =
    first_region (end / pagesize + 1) end physfree physfree 0 s.mem s.free_list_total_pages
    >>= finish (record s { free_list = physfree })

pub append_free_list : ℕ → ℕ → ℕ → ℕ → Pages → Run Pages
append_free_list walk start end physfree s =
    let start' = round_up start in
    let end' = round_up end in
    let phys' = round_up physfree in
    if s.free_list == 0
    then (if leb start' phys' && leb phys' end' then append_first end' phys' s else ok s)
    else (if leb phys' start' then append_later walk start' end' s else ok s)

-- `for (i = 0; i < free_list_pages_reqd; i++) temp = temp->next;`
skip_pages : ℕ → Memory → ℕ → Run ℕ
skip_pages zero m temp = ok temp
skip_pages (suc left) m temp = fault_if (temp == 0) >> skip_pages left m (m temp)

-- Pages that the list itself takes, rounded up.
unfoldable pub pages_for : ℕ → ℕ
pages_for size = if size % pagesize == 0 then size / pagesize else size / pagesize + 1

pub set_free_list_head : Pages → Run Pages
set_free_list_head s =
    let reqd = pages_for (s.free_list_total_pages * sizeof_page % 2 ^ 64) in
    do
      head ← skip_pages reqd s.mem s.free_list
      ok (record s {
        free_list_head = head;
        free_list_page_length = reqd;
        free_list_total_pages = sub64 s.free_list_total_pages reqd;
      })

pub get_next_free_page : Pages → ℕ × Pages
unfolding store
get_next_free_page s =
    let temp = s.free_list_head in
    if temp == 0
    then (2 ^ 64 - 1, s)
    else (let m = store s.mem (temp + 8) allocated in
        (m (temp + 16), record s { mem = m; free_list_head = m temp }))

pub set_new_free_list_head : Pages → Pages
set_new_free_list_head s = record s { free_list_head_kmalloc = add64 s.free_list_head kernbase }

-- The list is now read and written through the kernel's addresses, which are taken to be mapped, as
-- those of the list are. The head of the empty list is `KERNBASE` and not NULL: what the code then
-- does is to read there, where the kernel's tables map nothing, so that nothing is stated of it.
unfoldable pub get_next_free_page_kmalloc : Pages → ℕ × Pages
unfolding store
get_next_free_page_kmalloc s =
    let temp = s.free_list_head_kmalloc in
    if temp == 0
    then (0, s)
    else (let p = behind temp in
        let m = store s.mem (p + 8) allocated in
        (m (p + 16), record s { mem = m; free_list_head_kmalloc = add64 kernbase (m p) }))
