-- ===== src/Paging/Walk/PageWalk.antt =====
-- `page_walk` and `page_walk_user` of sys/paging.c, whichever of the tables are there.
use Prim.Native.Nat.{bit_or}
use sbunix_public.Base.{
  ◌%◌, some, arith, refl, ne→==, ℕ, suc, ◌+◌, ◌*◌, ◌≡◌, ◌≢◌, ◌∙◌, Option, Run, ok, ◌>>=◌,
}
use sbunix_public.Memory.{Memory}
use sbunix_public.Paging.Address.{is_valid_page}
use sbunix_public.Paging.Walk.{
  page_walk_user, page_kernel, page_user, page_walk, Machine, load, new_table, set_pte, walk_pte,
  walk_pgd, walk_pdpe, walk_pml4, pml4_rec_addr, pdpe_rec_addr, pgd_rec_addr, pte_rec_addr,
}
use sbunix_public.Paging.Walk.Mmu.{pml4_index, pdpe_index, pgd_index, pte_index, IsX86}
use sbunix_public.Paging.Walk.Entries.{
  IsTable, IsFlags, Refers-valid, translate-pml4_rec_addr, translate-pdpe_rec_addr,
  translate-pgd_rec_addr, translate-pte_rec_addr,
}
use sbunix_public.Paging.Walk.Level.{IsReady, WithPage, put}
use sbunix_public.Paging.Walk.Maps.{
  no_page, no_pt, no_pgd, no_pdpt, Missing, HasPdpt, HasPgd, HasPt, load_lem, set_word_lem, Mapped,
  set_pte_maps,
}
use sbunix_public.Paging.Walk.Tables.{new_pgd, new_pdpt, new_pt}

module _ (translate : Memory → ℕ → ℕ → Option ℕ) (x86 : IsX86 translate) (flags p v : ℕ)
    (s : Machine) (used : ℕ → Type 0) (base k left : ℕ) (addr : ℕ → ℕ)
    (ready : IsReady s used base addr k left) where
  -- Where a level is there, the walk goes down to the next.
  down_pdpe :
      (t3 : ℕ)
      → HasPdpt s used v t3
      → walk_pml4 translate flags p v s ≡ walk_pdpe translate flags p v s
  unfolding walk_pml4
  down_pdpe t3 has =
      let at = translate-pml4_rec_addr translate x86 s.pages.mem s.cr3 ready.self v in
      rw (
        load_lem translate (pml4_rec_addr v) _ s at,
        Refers-valid s.pages.mem (s.cr3 + 8 * pml4_index v) t3 has.entry,
      )

  down_pgd :
      (t3 t2 : ℕ)
      → HasPgd s used v t3 t2
      → walk_pdpe translate flags p v s ≡ walk_pgd translate flags p v s
  unfolding walk_pdpe
  down_pgd t3 t2 has =
      let at =
        translate-pdpe_rec_addr translate x86 s.pages.mem s.cr3 ready.self v t3 has.above.entry in
      rw (
        load_lem translate (pdpe_rec_addr v) _ s at,
        Refers-valid s.pages.mem (t3 + 8 * pdpe_index v) t2 has.entry,
      )

  down_pte :
      (t3 t2 t1 : ℕ)
      → HasPt s used v t3 t2 t1
      → walk_pgd translate flags p v s ≡ walk_pte translate flags p v s
  unfolding walk_pgd
  down_pte t3 t2 t1 has =
      let at =
        translate-pgd_rec_addr translate x86 s.pages.mem s.cr3 ready.self v t3 t2
          has.above.above.entry has.above.entry in
      rw (
        load_lem translate (pgd_rec_addr v) _ s at,
        Refers-valid s.pages.mem (t2 + 8 * pgd_index v) t1 has.entry,
      )

  down :
      (t3 t2 t1 : ℕ)
      → HasPt s used v t3 t2 t1
      → walk_pml4 translate flags p v s ≡ walk_pte translate flags p v s
  down t3 t2 t1 has =
      down_pdpe t3 has.above.above ∙ down_pgd t3 t2 has.above ∙ down_pte t3 t2 t1 has

  load_pte :
      (t3 t2 t1 : ℕ)
      → HasPt s used v t3 t2 t1
      → load translate (pte_rec_addr v) s ≡ ok (s.pages.mem (t1 + 8 * pte_index v))
  load_pte t3 t2 t1 has = load_lem translate (pte_rec_addr v) (t1 + 8 * pte_index v) s (
      translate-pte_rec_addr translate x86 s.pages.mem s.cr3 ready.self v t3 t2 t1
        has.above.above.entry has.above.entry has.entry)

  -- With all tables there, and the last entry not valid, only that entry is written.
  pub walk_run :
      (t3 t2 t1 : ℕ)
      → HasPt s used v t3 t2 t1
      → is_valid_page (s.pages.mem (t1 + 8 * pte_index v)) ≢ 1
      → walk_pml4 translate flags p v s ≡ ok (1, put s (t1 + 8 * pte_index v) (bit_or p flags))
  walk_run t3 t2 t1 has invalid =
      let at =
        translate-pte_rec_addr translate x86 s.pages.mem s.cr3 ready.self v t3 t2 t1
          has.above.above.entry has.above.entry has.entry in
      down t3 t2 t1 has
      ∙ unfold walk_pte set_pte in
        rw
          (
            load_pte t3 t2 t1 has,
            ne→== _ 1 invalid,
            set_word_lem translate (pte_rec_addr v) (bit_or p flags) (t1 + 8 * pte_index v) s at,
          )
          refl

  -- A virtual address that is mapped already: the walk answers 0 and changes nothing.
  pub page_walk_mapped :
      (t3 t2 t1 : ℕ)
      → HasPt s used v t3 t2 t1
      → is_valid_page (s.pages.mem (t1 + 8 * pte_index v)) ≡ 1
      → walk_pml4 translate flags p v s ≡ ok (0, s)
  page_walk_mapped t3 t2 t1 has there =
      down t3 t2 t1 has ∙ unfold walk_pte in rw (load_pte t3 t2 t1 has, there)

module _ (translate : Memory → ℕ → ℕ → Option ℕ) (x86 : IsX86 translate) (flags p v : ℕ)
    (valid : IsFlags flags) (page : IsTable p) (other : pml4_index v ≢ 510) where
  abbrev pub Maps : Machine → Run (ℕ × Machine) → Type 0
  Maps s r = Mapped translate x86 flags p v valid page other s r

  pt_then_page :
      (s : Machine) (used : ℕ → Type 0) (base k left : ℕ) (addr : ℕ → ℕ) (t3 t2 : ℕ)
      → IsReady s used base addr k (suc left)
      → HasPgd s used v t3 t2
      → Maps s (new_table translate flags p v (pgd_rec_addr v) s >>= set_pte translate flags p v)
  pt_then_page s used base k left addr t3 t2 ready has =
      let (run, ready', has') =
        new_pt translate x86 flags p v valid other s used base k left addr ready t3 t2 has in
      rw run (
        set_pte_maps translate x86 flags p v valid page other _ (WithPage used (addr k)) base
          (suc k) left addr t3 t2 (addr k) ready' has')

  pgd_then_page :
      (s : Machine) (used : ℕ → Type 0) (base k left : ℕ) (addr : ℕ → ℕ) (t3 : ℕ)
      → IsReady s used base addr k (suc (suc left))
      → HasPdpt s used v t3
      → Maps s (
          new_table translate flags p v (pdpe_rec_addr v) s
          >>= new_table translate flags p v (pgd_rec_addr v)
          >>= set_pte translate flags p v)
  pgd_then_page s used base k left addr t3 ready has =
      let (run, ready', has') =
        new_pgd translate x86 flags p v valid other s used base k (suc left) addr ready t3 has in
      rw run
        (pt_then_page _ (WithPage used (addr k)) base (suc k) left addr t3 (addr k) ready' has')

  pdpt_then_page :
      (s : Machine) (used : ℕ → Type 0) (base k left : ℕ) (addr : ℕ → ℕ)
      → IsReady s used base addr k (suc (suc (suc left)))
      → Maps s (
          new_table translate flags p v (pml4_rec_addr v) s
          >>= new_table translate flags p v (pdpe_rec_addr v)
          >>= new_table translate flags p v (pgd_rec_addr v)
          >>= set_pte translate flags p v)
  pdpt_then_page s used base k left addr ready =
      let (run, ready', has') =
        new_pdpt translate x86 flags p v valid other s used base k (suc (suc left)) addr ready in
      rw run (pgd_then_page _ (WithPage used (addr k)) base (suc k) left addr (addr k) ready' has')

  pub walk-Maps :
      (s : Machine) (used : ℕ → Type 0) (base k left : ℕ) (addr : ℕ → ℕ)
      → IsReady s used base addr k (suc (suc (suc left)))
      → Missing s used v
      → Maps s (walk_pml4 translate flags p v s)
  unfolding walk_pml4 walk_pdpe walk_pgd walk_pte
  walk-Maps s used base k left addr ready (no_pdpt invalid) =
      let at = translate-pml4_rec_addr translate x86 s.pages.mem s.cr3 ready.self v in
      rw (load_lem translate (pml4_rec_addr v) _ s at, ne→== _ 1 invalid)
        (pdpt_then_page s used base k left addr ready)
  walk-Maps s used base k left addr ready (no_pgd t3 has invalid) =
      let at = translate-pdpe_rec_addr translate x86 s.pages.mem s.cr3 ready.self v t3 has.entry in
      rw (down_pdpe translate x86 flags p v s used base k (suc (suc (suc left))) addr ready t3 has)
        (rw (load_lem translate (pdpe_rec_addr v) _ s at, ne→== _ 1 invalid)
          (pgd_then_page s used base k (suc left) addr t3 ready has))
  walk-Maps s used base k left addr ready (no_pt t3 t2 has invalid) =
      let n = suc (suc (suc left)) in
      let at =
        translate-pgd_rec_addr translate x86 s.pages.mem s.cr3 ready.self v t3 t2 has.above.entry
          has.entry in
      rw
        (down_pdpe translate x86 flags p v s used base k n addr ready t3 has.above
          ∙ down_pgd translate x86 flags p v s used base k n addr ready t3 t2 has)
        (rw (load_lem translate (pgd_rec_addr v) _ s at, ne→== _ 1 invalid)
          (pt_then_page s used base k (suc (suc left)) addr t3 t2 ready has))
  walk-Maps s used base k left addr ready (no_page t3 t2 t1 has invalid) =
      let n = suc (suc (suc left)) in
      rw (down translate x86 flags p v s used base k n addr ready t3 t2 t1 has) (
        rw
          (
            load_pte translate x86 flags p v s used base k n addr ready t3 t2 t1 has,
            ne→== _ 1 invalid,
          )
          (set_pte_maps translate x86 flags p v valid page other s used base k n addr t3 t2 t1 ready
            has))

pub page_kernel-IsFlags : IsFlags page_kernel
page_kernel-IsFlags = omega arith

pub page_user-IsFlags : IsFlags page_user
page_user-IsFlags = omega arith

module _ (translate : Memory → ℕ → ℕ → Option ℕ) (p v : ℕ) (s : Machine) (used : ℕ → Type 0)
    (base k left : ℕ) (addr : ℕ → ℕ) where
  -- Where the first entry for `v` that is not valid stands at any of the four levels, and three
  -- pages are left, both walks succeed: they answer 1, CR3 is the same, and the processor then
  -- translates `v` to the same place in page `p`. The conditions are that the processor follows the
  -- manual, `p` is the address of a page, `v` is not in the recursive slot, and the machine is ready:
  -- slot 510 refers to the PML4, and the pages of the pool are no tables in use.
  pub page_walk_maps :
      IsX86 translate
      → IsTable p
      → pml4_index v ≢ 510
      → IsReady s used base addr k (suc (suc (suc left)))
      → Missing s used v
      → ((t : Machine) × (page_walk translate p v s ≡ ok (1, t))
          × (t.cr3 ≡ s.cr3)
          × (translate t.pages.mem t.cr3 v ≡ some (p + v % 4096)))
        × ((t : Machine) × (page_walk_user translate p v s ≡ ok (1, t))
            × (t.cr3 ≡ s.cr3)
            × (translate t.pages.mem t.cr3 v ≡ some (p + v % 4096)))
  unfolding page_walk page_walk_user
  page_walk_maps x86 page other ready missing =
      let (t, run, cr3, to, top) =
        walk-Maps translate x86 page_kernel p v page_kernel-IsFlags page other s used base k left
          addr ready missing in
      let (t', run', cr3', to', top') =
        walk-Maps translate x86 page_user p v page_user-IsFlags page other s used base k left addr
          ready missing in
      ((t, run, cr3, to), (t', run', cr3', to'))

  -- Where all four entries for `v` are valid, both walks answer 0 and change nothing.
  pub page_walk_occupied :
      IsX86 translate
      → IsReady s used base addr k left
      → (t3 t2 t1 : ℕ) → HasPt s used v t3 t2 t1
      → is_valid_page (s.pages.mem (t1 + 8 * pte_index v)) ≡ 1
      → (page_walk translate p v s ≡ ok (0, s)) × (page_walk_user translate p v s ≡ ok (0, s))
  unfolding page_walk page_walk_user
  page_walk_occupied x86 ready t3 t2 t1 has there = (
    page_walk_mapped translate x86 page_kernel p v s used base k left addr ready t3 t2 t1 has there,
    page_walk_mapped translate x86 page_user p v s used base k left addr ready t3 t2 t1 has there,
  )
