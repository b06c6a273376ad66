-- ===== src/Paging/Walk/Tables.antt =====
-- A new table of `page_walk`: a page from the pool and an entry for it in the table above.
use Prim.Native.Nat.{bit_or}
use sbunix_public.Base.{
  ℕ, suc, ◌+◌, ◌*◌, ◌<◌, ◌≡◌, ◌≢◌, inl, inr, arith, ap, ◌∙◌, sym, Option, some, refl, ok,
}
use sbunix_public.Memory.{Memory}
use sbunix_public.Paging.FreeList.{get_next_free_page_kmalloc}
use sbunix_public.Paging.FreeList.Kmalloc.{get_next_free_page_kmalloc_step}
use sbunix_public.Paging.Walk.{Machine, new_table, pml4_rec_addr, pdpe_rec_addr, pgd_rec_addr}
use sbunix_public.Paging.Walk.Mmu.{pml4_index, pdpe_index, pgd_index, IsX86}
use sbunix_public.Paging.Walk.Entries.{
  Refers, IsTable, IsFlags, Refers-store_self, Refers-store_ne, translate-pml4_rec_addr,
  translate-pdpe_rec_addr, translate-pgd_rec_addr,
}
use sbunix_public.Paging.Walk.Level.{
  IsReady, WithPage, entry_ne, taken, take_Refers, take_IsReady, put, put-IsReady,
}
use sbunix_public.Paging.Walk.Maps.{HasPdpt, HasPgd, HasPt, set_word_lem}

module _ (translate : Memory → ℕ → ℕ → Option ℕ) (x86 : IsX86 translate) (flags p v : ℕ)
    (valid : IsFlags flags) (other : pml4_index v ≢ 510) (s : Machine) (used : ℕ → Type 0)
    (base k left : ℕ) (addr : ℕ → ℕ) (ready : IsReady s used base addr k (suc left)) where
  -- The machine behind a new table whose entry stands at `a`.
  abbrev pub made : ℕ → Machine
  made a = put (taken s) a (bit_or (addr k) flags)

  new_table_lem :
      (entry a : ℕ)
      → translate (taken s).pages.mem s.cr3 entry ≡ some a
      → new_table translate flags p v entry s ≡ ok (made a)
  unfolding new_table
  new_table_lem entry a e =
      let page = (get_next_free_page_kmalloc_step s.pages base k left addr ready.pool).0 in
      set_word_lem translate entry (bit_or (get_next_free_page_kmalloc s.pages).0 flags) a (taken s)
        e
      ∙ ap (λ (x : ℕ). ok (put (taken s) a (bit_or x flags))) page

  spare_IsTable : IsTable (addr k)
  spare_IsTable = (ready.spare k (omega arith) (omega arith)).0

  made-IsReady :
      (t i : ℕ)
      → used t
      → i < 512
      → t + 8 * i ≢ s.cr3 + 8 * 510
      → IsReady (made (t + 8 * i)) (WithPage used (addr k)) base addr (suc k) left
  made-IsReady t i u small ne =
      put-IsReady (taken s) (WithPage used (addr k)) base addr (suc k) left t i
        (bit_or (addr k) flags) (take_IsReady s used base addr k left ready) (inr u) small ne

  -- The new entry, and the others, that stay.
  made-Refers : (a : ℕ) → Refers (made a).pages.mem a (addr k)
  made-Refers a = Refers-store_self (taken s).pages.mem a (addr k) flags spare_IsTable valid

  kept :
      (t i r t' i' : ℕ)
      → used t
      → i < 512
      → used t'
      → i' < 512
      → t ≢ t'
      → Refers s.pages.mem (t + 8 * i) r
      → Refers (made (t' + 8 * i')).pages.mem (t + 8 * i) r
  kept t i r t' i' u small u' small' ne e =
      Refers-store_ne (taken s).pages.mem (t + 8 * i) (t' + 8 * i') r (bit_or (addr k) flags)
        (entry_ne t i t' i' (ready.tables t u).0 (ready.tables t' u').0 small small' (inl ne))
        (take_Refers s used base addr k left ready t i r u small e)

  self : Refers (taken s).pages.mem (s.cr3 + 8 * 510) s.cr3
  self =
      take_Refers s used base addr k left ready s.cr3 510 s.cr3 ready.root (omega arith) ready.self

  new_page : (t : ℕ) → used t → addr k ≢ t
  new_page t u = ready.fresh k t (omega arith) (omega arith) u

  root_IsTable : IsTable s.cr3
  root_IsTable = (ready.tables s.cr3 ready.root).0

  not_self : (t i : ℕ) → used t → i < 512 → t ≢ s.cr3 → t + 8 * i ≢ s.cr3 + 8 * 510
  not_self t i u small ne =
      entry_ne t i s.cr3 510 (ready.tables t u).0 root_IsTable small (omega arith) (inl ne)

  -- What a new table leaves: the machine is ready again, and has one table more for `v`.
  abbrev pub Made : ℕ → ℕ → (Machine → Type 0) → Type 0
  Made entry a Has =
      (new_table translate flags p v entry s ≡ ok (made a))
      × IsReady (made a) (WithPage used (addr k)) base addr (suc k) left
      × Has (made a)

  pub new_pdpt :
      Made
        (pml4_rec_addr v)
        (s.cr3 + 8 * pml4_index v)
        (λ t. HasPdpt t (WithPage used (addr k)) v (addr k))
  new_pdpt =
      let a = s.cr3 + 8 * pml4_index v in
      (
        new_table_lem (pml4_rec_addr v) a
            (translate-pml4_rec_addr translate x86 (taken s).pages.mem s.cr3 self v),
        made-IsReady s.cr3 (pml4_index v) ready.root (omega arith) (
            entry_ne s.cr3 (pml4_index v) s.cr3 510 root_IsTable root_IsTable (omega arith)
              (omega arith) (inr other)),
        record { inside = inl refl; entry = made-Refers a; apart = new_page s.cr3 ready.root },
      )

  pub new_pgd :
      (t3 : ℕ)
      → HasPdpt s used v t3
      → Made
          (pdpe_rec_addr v)
          (t3 + 8 * pdpe_index v)
          (λ t. HasPgd t (WithPage used (addr k)) v t3 (addr k))
  new_pgd t3 has =
      let a = t3 + 8 * pdpe_index v in
      let root = λ (e : s.cr3 ≡ t3). has.apart (sym e) in
      let r4 =
        take_Refers s used base addr k left ready s.cr3 (pml4_index v) t3 ready.root (omega arith)
          has.entry in
      (
        new_table_lem (pdpe_rec_addr v) a
            (translate-pdpe_rec_addr translate x86 (taken s).pages.mem s.cr3 self v t3 r4),
        made-IsReady t3 (pdpe_index v) has.inside (omega arith)
            (not_self t3 (pdpe_index v) has.inside (omega arith) has.apart),
        record {
          above = record {
            inside = inr has.inside;
            entry =
                kept s.cr3 (pml4_index v) t3 t3 (pdpe_index v) ready.root (omega arith) has.inside
                  (omega arith) root has.entry;
            apart = has.apart;
          };
          inside = inl refl;
          entry = made-Refers a;
          apart = new_page s.cr3 ready.root;
          apart' = new_page t3 has.inside;
        },
      )

  pub new_pt :
      (t3 t2 : ℕ)
      → HasPgd s used v t3 t2
      → Made
          (pgd_rec_addr v)
          (t2 + 8 * pgd_index v)
          (λ t. HasPt t (WithPage used (addr k)) v t3 t2 (addr k))
  new_pt t3 t2 has =
      let a = t2 + 8 * pgd_index v in
      let up = has.above in
      let root = λ (e : s.cr3 ≡ t2). has.apart (sym e) in
      let mid = λ (e : t3 ≡ t2). has.apart' (sym e) in
      let r4 =
        take_Refers s used base addr k left ready s.cr3 (pml4_index v) t3 ready.root (omega arith)
          up.entry in
      let r3 =
        take_Refers s used base addr k left ready t3 (pdpe_index v) t2 up.inside (omega arith)
          has.entry in
      (
        new_table_lem (pgd_rec_addr v) a
            (translate-pgd_rec_addr translate x86 (taken s).pages.mem s.cr3 self v t3 t2 r4 r3),
        made-IsReady t2 (pgd_index v) has.inside (omega arith)
            (not_self t2 (pgd_index v) has.inside (omega arith) has.apart),
        record {
          above = record {
            above = record {
              inside = inr up.inside;
              entry =
                  kept s.cr3 (pml4_index v) t3 t2 (pgd_index v) ready.root (omega arith) has.inside
                    (omega arith) root up.entry;
              apart = up.apart;
            };
            inside = inr has.inside;
            entry =
                kept t3 (pdpe_index v) t2 t2 (pgd_index v) up.inside (omega arith) has.inside
                  (omega arith) mid has.entry;
            apart = has.apart;
            apart' = has.apart';
          };
          inside = inl refl;
          entry = made-Refers a;
          apart = new_page s.cr3 ready.root;
          apart' = new_page t3 up.inside;
          apart'' = new_page t2 has.inside;
        },
      )
