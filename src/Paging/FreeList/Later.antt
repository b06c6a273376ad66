-- ===== src/Paging/FreeList/Later.antt =====
-- `append_free_list` of sys/paging.c on a list that has pages already: a later region of memory.
use sbunix_public.Base.{
  ℕ, zero, suc, ◌+◌, ◌-◌, ◌*◌, ◌/◌, ◌%◌, ◌^◌, ◌≤◌, ◌<◌, ◌≡◌, arith, ok, leb, if◌then◌else◌, eq→==,
  ne→==, le→leb, lt→leb_false, ◌∙◌, ap, sym,
}
use sbunix_public.Memory.{Memory, store, add64}
use sbunix_public.Paging.Address.{round_up}
use sbunix_public.Paging.Address.Laws.{round_up_least}
use sbunix_public.Paging.FreeList.{
  Pages, clear_page, later_region, last_page, finish, append_later, append_free_list,
}
use sbunix_public.Paging.FreeList.Build.{IsList, clear_page_out}

-- `n` structures, each but the last pointing to the one behind it.
record IsBuilt (m : Memory) (base : ℕ) (addr : ℕ → ℕ) (n : ℕ) : Type 0 where
  next : (j : ℕ) → suc j < n → m (base + 24 * j) ≡ base + 24 * suc j
  p_addr : (j : ℕ) → j < n → m (base + 24 * j + 16) ≡ addr j

-- The body of the loop: behind structure `k` stands one more, for page `i`.
abbrev grown : Memory → ℕ → ℕ → Memory
grown m temp i = store (clear_page (store m temp (temp + 24)) i) (temp + 24 + 16) i

IsBuilt-step :
    (m : Memory) (base : ℕ) (addr : ℕ → ℕ) (k i : ℕ)
    → IsBuilt m base addr (suc k)
    → i ≡ addr (suc k)
    → i < 2 ^ 31
    → base + 24 * suc (suc k) ≤ i
    → IsBuilt (grown m (base + 24 * k) i) base addr (suc (suc k))
unfolding store
IsBuilt-step m base addr k i b ei small above = record {
  next = λ j h. ground (
    arith,
    b.next j,
    clear_page_out (store m (base + 24 * k) (base + 24 * k + 24)) i (base + 24 * j) small,
  );
  p_addr = λ j h. ground (
    arith,
    b.p_addr j,
    clear_page_out (store m (base + 24 * k) (base + 24 * k + 24)) i (base + 24 * j + 16) small,
  );
}

last_page_lem :
    (d walk k : ℕ) (m : Memory) (base : ℕ) (addr : ℕ → ℕ)
    → 0 < base
    → IsList m base addr (suc (k + d))
    → d < walk
    → last_page walk m (base + 24 * k) ≡ ok (base + 24 * (k + d))
unfolding last_page
last_page_lem d zero k m base addr pos is fuel = absurd (omega arith)
last_page_lem zero (suc w) k m base addr pos is fuel =
    let e : k + 0 ≡ k = omega arith in rw (e, eq→== (m (base + 24 * k)) 0 (is.end k (omega arith)))
last_page_lem (suc d) (suc w) k m base addr pos is fuel =
    let e : k + suc d ≡ suc k + d = omega arith in
    let n : m (base + 24 * k) ≡ base + 24 * suc k = is.next k (omega arith) in
    rw (e, n, ne→== (base + 24 * suc k) 0 (omega arith))
      (last_page_lem d w (suc k) m base addr pos (rw e at is) (omega arith))

later_region_step :
    (f end start base n d : ℕ) (m : Memory) (total : ℕ)
    → start + 4096 * d ≤ end
    → end < 2 ^ 31
    → later_region (suc f) end (start + 4096 * d) (base + 24 * (n + d)) m total
      ≡ later_region f end
          (start + 4096 * suc d)
          (base + 24 * (n + suc d))
          (grown m (base + 24 * (n + d)) (start + 4096 * d))
          (total + 1)
unfolding later_region
later_region_step f end start base n d m total before small =
    let i : add64 (start + 4096 * d) 4096 ≡ start + 4096 * suc d = omega arith in
    let t : base + 24 * (n + d) + 24 ≡ base + 24 * (n + suc d) = omega arith in
    rw (le→leb (start + 4096 * d) end before, i)
      (ap
        (λ (x : ℕ).
          later_region f end (start + 4096 * suc d) x
            (grown m (base + 24 * (n + d)) (start + 4096 * d)) (total + 1))
        t)

later_region_lem :
    (r fuel end start base n d : ℕ) (m : Memory) (addr : ℕ → ℕ) (total : ℕ)
    → IsBuilt m base addr (suc (n + d))
    → ((j : ℕ) → addr (suc (n + j)) ≡ start + 4096 * j)
    → base + 24 * (n + d + r + 1) ≤ start
    → end + 4096 ≡ start + 4096 * (d + r)
    → end + 4096 ≤ 2 ^ 31
    → r < fuel
    → (m' : Memory) × (later_region fuel end (start + 4096 * d) (base + 24 * (n + d)) m total
        ≡ ok (m', base + 24 * (n + (d + r)), total + r))
      × IsBuilt m' base addr (suc (n + (d + r)))
unfolding later_region
later_region_lem r zero end start base n d m addr total b later room ee small fuel =
    absurd (omega arith)
later_region_lem zero (suc f) end start base n d m addr total b later room ee small fuel =
    let e : d + 0 ≡ d = omega arith in
    let t : total + 0 ≡ total = omega arith in
    (m, rw (e, t, lt→leb_false (start + 4096 * d) end (omega arith)), rw e b)
later_region_lem (suc r) (suc f) end start base n d m addr total b later room ee small fuel =
    let e : d + suc r ≡ suc d + r = omega arith in
    let c : total + suc r ≡ total + 1 + r = omega arith in
    let n' : suc (n + d) ≡ n + suc d = omega arith in
    let b' =
      IsBuilt-step m base addr (n + d) (start + 4096 * d) b (sym (later d)) (omega arith)
        (omega arith) in
    let (m', run, done) =
      later_region_lem r f end start base n (suc d)
        (grown m (base + 24 * (n + d)) (start + 4096 * d)) addr (total + 1) (rw n' at b') later
        (omega arith) (omega arith) small (omega arith) in
    rw (e, c)
      (m', later_region_step f end start base n d m total (omega arith) (omega arith) ∙ run, done)

finish_later :
    (s : Pages) (m : Memory) (base n total : ℕ) (addr : ℕ → ℕ)
    → 0 < base
    → IsBuilt m base addr (suc n)
    → (m' : Memory) × (finish s (m, base + 24 * n, total)
        ≡ ok (record s { mem = m'; free_list_total_pages = total }))
      × IsList m' base addr (suc n)
unfolding finish store
finish_later s m base n total addr pos b = (
  store m (base + 24 * n) 0,
  rw (ne→== (base + 24 * n) 0 (omega arith)),
  record {
    next = λ j h. ground (arith, b.next j);
    end = λ j h. ground arith;
    p_addr = λ j h. ground (arith, b.p_addr j);
  },
)

-- The pages of a list of `suc n`, and behind them those from `start` on.
abbrev pub joined : (ℕ → ℕ) → ℕ → ℕ → ℕ → ℕ
joined addr n start j = if leb j n then addr j else start + 4096 * (j - suc n)

joined-IsBuilt :
    (m : Memory) (base n start : ℕ) (addr : ℕ → ℕ)
    → IsList m base addr (suc n)
    → IsBuilt m base (joined addr n start) (suc n)
joined-IsBuilt m base n start addr is = record {
  next = is.next;
  p_addr = λ j h. ground (arith, is.p_addr j);
}

joined_later : (addr : ℕ → ℕ) (n start j : ℕ) → joined addr n start (suc (n + j)) ≡ start + 4096 * j
joined_later addr n start j = ground arith

append_later_lem :
    (s : Pages) (walk n r start : ℕ) (addr : ℕ → ℕ)
    → 0 < s.free_list
    → n < walk
    → IsList s.mem s.free_list addr (suc n)
    → s.free_list + 24 * (n + r + 2) ≤ start
    → start + 4096 * suc r ≤ 2 ^ 31
    → (m : Memory) × (append_later walk start (start + 4096 * r) s
        ≡ ok (record s { mem = m; free_list_total_pages = s.free_list_total_pages + suc r }))
      × IsList m s.free_list (joined addr n start) (suc (n + suc r))
unfolding append_later
append_later_lem s walk n r start addr pos fuel is room small =
    let base = s.free_list in
    let total = s.free_list_total_pages in
    let a : base + 24 * 0 ≡ base = omega arith in
    let b : start + 4096 * 0 ≡ start = omega arith in
    let c : n + 0 ≡ n = omega arith in
    let z : 0 + n ≡ n = omega arith in
    let d : 0 + suc r ≡ suc r = omega arith in
    let last : last_page walk s.mem base ≡ ok (base + 24 * n) =
      rw (a, z) at (last_page_lem n walk 0 s.mem base addr pos (rw z is) fuel) in
    let built = joined-IsBuilt s.mem base n start addr is in
    let (m, run, done) =
      rw (b, c, d) at
        (later_region_lem (suc r) ((start + 4096 * r) / 4096 + 2) (start + 4096 * r) start base n 0
          s.mem (joined addr n start) total (rw c built) (joined_later addr n start) (omega arith)
          (omega arith) (omega arith) (omega arith)) in
    let (m', fin, list) =
      finish_later s m base (n + suc r) (total + suc r) (joined addr n start) pos done in
    (m', rw (last, run) fin, list)

-- `append_free_list` on a list of `n + 1` pages, for a region of `r` pages from `start` on that lies
-- above `physfree` and above all the structures, below 2 GB: the list grows behind its end by
-- `r + 1` pages, those of the region and the one at its end address, which is not part of it.
pub append_free_list_later :
    (s : Pages) (walk n r start physfree : ℕ) (addr : ℕ → ℕ)
    → 0 < s.free_list
    → n < walk
    → IsList s.mem s.free_list addr (suc n)
    → start % 4096 ≡ 0
    → physfree ≤ start
    → s.free_list + 24 * (n + r + 2) ≤ start
    → start + 4096 * suc r ≤ 2 ^ 31
    → (m : Memory) × (append_free_list walk start (start + 4096 * r) physfree s
        ≡ ok (record s { mem = m; free_list_total_pages = s.free_list_total_pages + suc r }))
      × IsList m s.free_list (joined addr n start) (suc (n + suc r))
unfolding append_free_list
append_free_list_later s walk n r start physfree addr pos fuel is aligned above room small =
    let end = start + 4096 * r in
    let re : round_up end ≡ end = ground (arith, round_up_least end (omega arith)) in
    let rs : round_up start ≡ start = ground (arith, round_up_least start (omega arith)) in
    let rp : round_up physfree ≤ start = ground (arith, round_up_least physfree (omega arith)) in
    rw (ne→== s.free_list 0 (omega arith), re, rs, le→leb _ _ rp)
      (append_later_lem s walk n r start addr pos fuel is room small)
