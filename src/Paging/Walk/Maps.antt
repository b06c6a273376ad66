-- ===== src/Paging/Walk/Maps.antt =====
-- `page_walk` and `page_walk_user` of sys/paging.c map the page: afterwards the processor
-- translates the virtual address to it, whichever of the tables had to be made.
use Prim.Native.Nat.{bit_or}
use sbunix_public.Base.{
  ℕ, ◌+◌, ◌*◌, ◌%◌, ◌<◌, ◌≡◌, ◌≢◌, inl, arith, sym, Option, some, refl, Run, ok,
}
use sbunix_public.Memory.{Memory, store}
use sbunix_public.Paging.Address.{is_valid_page}
use sbunix_public.Paging.Walk.{Machine, load, set_word, set_pte, pte_rec_addr}
use sbunix_public.Paging.Walk.Mmu.{pml4_index, pdpe_index, pgd_index, pte_index, IsX86}
use sbunix_public.Paging.Walk.Entries.{
  Refers, IsTable, IsFlags, Refers-store_self, Refers-store_ne, translate-Refers,
  translate-pte_rec_addr,
}
use sbunix_public.Paging.Walk.Level.{IsReady, entry_ne, put}

-- The tables for `v` that exist: the second level is `t3`, the third `t2`, the last `t1`.
pub record HasPdpt (s : Machine) (used : ℕ → Type 0) (v t3 : ℕ) : Type 0 where
  pub inside : used t3
  pub entry : Refers s.pages.mem (s.cr3 + 8 * pml4_index v) t3
  pub apart : t3 ≢ s.cr3

pub record HasPgd (s : Machine) (used : ℕ → Type 0) (v t3 t2 : ℕ) : Type 0 where
  pub above : HasPdpt s used v t3
  pub inside : used t2
  pub entry : Refers s.pages.mem (t3 + 8 * pdpe_index v) t2
  pub apart : t2 ≢ s.cr3
  pub apart' : t2 ≢ t3

pub record HasPt (s : Machine) (used : ℕ → Type 0) (v t3 t2 t1 : ℕ) : Type 0 where
  pub above : HasPgd s used v t3 t2
  pub inside : used t1
  pub entry : Refers s.pages.mem (t2 + 8 * pgd_index v) t1
  pub apart : t1 ≢ s.cr3
  pub apart' : t1 ≢ t3
  pub apart'' : t1 ≢ t2

-- Where the walk for `v` comes to its end: at the first entry that is not valid.
pub data Missing (s : Machine) (used : ℕ → Type 0) (v : ℕ) : Type 0 where
  no_pdpt : is_valid_page (s.pages.mem (s.cr3 + 8 * pml4_index v)) ≢ 1 → Missing s used v
  no_pgd :
      (t3 : ℕ)
      → HasPdpt s used v t3
      → is_valid_page (s.pages.mem (t3 + 8 * pdpe_index v)) ≢ 1
      → Missing s used v
  no_pt :
      (t3 t2 : ℕ)
      → HasPgd s used v t3 t2
      → is_valid_page (s.pages.mem (t2 + 8 * pgd_index v)) ≢ 1
      → Missing s used v
  no_page :
      (t3 t2 t1 : ℕ)
      → HasPt s used v t3 t2 t1
      → is_valid_page (s.pages.mem (t1 + 8 * pte_index v)) ≢ 1
      → Missing s used v

module _ (translate : Memory → ℕ → ℕ → Option ℕ) where
  pub load_lem :
      (p a : ℕ) (s : Machine)
      → translate s.pages.mem s.cr3 p ≡ some a
      → load translate p s ≡ ok (s.pages.mem a)
  unfolding load
  load_lem p a s e = rw (e, load)

  pub set_word_lem :
      (p x a : ℕ) (s : Machine)
      → translate s.pages.mem s.cr3 p ≡ some a
      → set_word translate p x s ≡ ok (put s a x)
  unfolding set_word
  set_word_lem p x a s e = rw (e, set_word)

module _ (translate : Memory → ℕ → ℕ → Option ℕ) (x86 : IsX86 translate) (flags p v : ℕ)
    (valid : IsFlags flags) (page : IsTable p) (other : pml4_index v ≢ 510) where
  -- The run succeeds, CR3 and the top stay, and `v` now translates into the page `p`.
  abbrev pub Mapped : Machine → Run (ℕ × Machine) → Type 0
  Mapped s r =
      (t : Machine) × (r ≡ ok (1, t))
      × (t.cr3 ≡ s.cr3)
      × (translate t.pages.mem t.cr3 v ≡ some (p + v % 4096))
      × (t.top_virtual_address ≡ s.top_virtual_address)

  pub set_pte_maps :
      (s : Machine) (used : ℕ → Type 0) (base k left : ℕ) (addr : ℕ → ℕ) (t3 t2 t1 : ℕ)
      → IsReady s used base addr k left
      → HasPt s used v t3 t2 t1
      → Mapped s (set_pte translate flags p v s)
  unfolding set_pte
  set_pte_maps s used base k left addr t3 t2 t1 ready has =
      let m = s.pages.mem in
      let r2 = has.entry in
      let r3 = has.above.entry in
      let r4 = has.above.above.entry in
      let h1 = (ready.tables t1 has.inside).0 in
      let h2 = (ready.tables t2 has.above.inside).0 in
      let h3 = (ready.tables t3 has.above.above.inside).0 in
      let h4 = (ready.tables s.cr3 ready.root).0 in
      let a = t1 + 8 * pte_index v in
      let x = bit_or p flags in
      let at = translate-pte_rec_addr translate x86 m s.cr3 ready.self v t3 t2 t1 r4 r3 r2 in
      let keep =
        λ (t i r : ℕ) (h : IsTable t) (small : i < 512) (ne : t ≢ t1) (e : Refers m (t + 8 * i) r).
          Refers-store_ne m (t + 8 * i) a r x
            (entry_ne t i t1 (pte_index v) h h1 small (omega arith) (inl ne)) e in
      (
        put s a x,
        rw (set_word_lem translate (pte_rec_addr v) x a s at),
        refl,
        translate-Refers translate x86 (store m a x) s.cr3 v t3 t2 t1 p
            (keep s.cr3 (pml4_index v) t3 h4 (omega arith) (λ e. has.apart (sym e)) r4)
            (keep t3 (pdpe_index v) t2 h3 (omega arith) (λ e. has.apart' (sym e)) r3)
            (keep t2 (pgd_index v) t1 h2 (omega arith) (λ e. has.apart'' (sym e)) r2)
            (Refers-store_self m a p flags page valid),
        refl,
      )
