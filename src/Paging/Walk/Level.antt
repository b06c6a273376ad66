-- ===== src/Paging/Walk/Level.antt =====
-- One step of the walk code at a time: take a page from the pool, and write an entry.

use sbunix_public.Base.{ℕ, suc, ◌+◌, ◌*◌, ◌≤◌, ◌<◌, ◌≡◌, ◌≢◌, ◌⊎◌, inl, inr, arith, ◌∙◌, sym}
use sbunix_public.Memory.{store}
use sbunix_public.Paging.FreeList.{get_next_free_page_kmalloc}
use sbunix_public.Paging.FreeList.Kmalloc.{
  IsKernelPool, get_next_free_page_kmalloc_step, get_next_free_page_kmalloc_mem, Outside,
  store-IsKernelPool,
}
use sbunix_public.Paging.Walk.{Machine}
use sbunix_public.Paging.Walk.Entries.{Refers, IsTable, Refers-store_ne}

-- A machine in whose PML4 slot 510 refers to the PML4 itself, with the tables `used` and a pool of
-- `left` pages that are none of them, all of them away from the structures of the list.
pub record IsReady (s : Machine) (used : ℕ → Type 0) (base : ℕ) (addr : ℕ → ℕ) (k left : ℕ)
    : Type 0 where
  pub pool : IsKernelPool s.pages base addr k left
  pub self : Refers s.pages.mem (s.cr3 + 8 * 510) s.cr3
  pub root : used s.cr3
  pub tables : (t : ℕ) → used t → IsTable t × Outside base (k + left) t
  pub spare : (j : ℕ) → k ≤ j → j < k + left → IsTable (addr j) × Outside base (k + left) (addr j)
  pub fresh : (j t : ℕ) → k ≤ j → j < k + left → used t → addr j ≢ t
  pub distinct : (i j : ℕ) → k ≤ i → i < j → j < k + left → addr i ≢ addr j

abbrev pub WithPage : (ℕ → Type 0) → ℕ → ℕ → Type 0
WithPage used page t = (t ≡ page) ⊎ used t

-- Two entries of tables that are one and the same word are the same entry of the same table.
pub entry_ne :
    (t i t' i' : ℕ)
    → IsTable t
    → IsTable t'
    → i < 512
    → i' < 512
    → (t ≢ t') ⊎ (i ≢ i')
    → t + 8 * i ≢ t' + 8 * i'
entry_ne t i t' i' h h' small small' (inl ne) = λ e. ne (omega (arith, h.aligned, h'.aligned))
entry_ne t i t' i' h h' small small' (inr ne) = λ e. ne (omega (arith, h.aligned, h'.aligned))

-- The machine behind a call for a page.
abbrev pub taken : Machine → Machine
taken s = record s { pages = (get_next_free_page_kmalloc s.pages).1 }

-- The machine behind a write of an entry.
abbrev pub put : Machine → ℕ → ℕ → Machine
put s a x = record s { pages = record (s.pages) { mem = store s.pages.mem a x } }

module _ (s : Machine) (used : ℕ → Type 0) (base : ℕ) (addr : ℕ → ℕ) (k left : ℕ) where
  pub take_Refers :
      IsReady s used base addr k (suc left)
      → (t i r : ℕ) → used t
      → i < 512
      → Refers s.pages.mem (t + 8 * i) r
      → Refers (taken s).pages.mem (t + 8 * i) r
  take_Refers ready t i r u h e =
      rw (get_next_free_page_kmalloc_mem s.pages base k left addr ready.pool) (
        Refers-store_ne s.pages.mem (t + 8 * i) (base + 24 * k + 8) r 1
          (omega (arith, (ready.tables t u).1)) e)

  pub take_IsReady :
      IsReady s used base addr k (suc left)
      → IsReady (taken s) (WithPage used (addr k)) base addr (suc k) left
  take_IsReady ready =
      let sum : k + suc left ≡ suc k + left = omega arith in
      let (page, pool) = get_next_free_page_kmalloc_step s.pages base k left addr ready.pool in
      record {
        pool = pool;
        self = take_Refers ready s.cr3 510 s.cr3 ready.root (omega arith) ready.self;
        root = inr ready.root;
        tables = λ t u. elim u [
          | inl e ↦ rw (e, ← sum) (ready.spare k (omega arith) (omega arith))
          | inr h ↦ rw (← sum) (ready.tables t h)
        ];
        spare = λ j lo hi. rw (← sum) (ready.spare j (omega arith) (omega arith));
        fresh = λ j t lo hi u. elim u [
          | inl e ↦ λ q. ready.distinct k j (omega arith) (omega arith) (omega arith) (sym (q ∙ e))
          | inr h ↦ ready.fresh j t (omega arith) (omega arith) h
        ];
        distinct = λ i j lo mid hi. ready.distinct i j (omega arith) mid (omega arith);
      }

  pub put-IsReady :
      (t i x : ℕ)
      → IsReady s used base addr k left
      → used t
      → i < 512
      → t + 8 * i ≢ s.cr3 + 8 * 510
      → IsReady (put s (t + 8 * i) x) used base addr k left
  put-IsReady t i x ready u small ne = record {
    pool = store-IsKernelPool s.pages base k left t i x addr ready.pool (ready.tables t u).1 small;
    self =
        Refers-store_ne s.pages.mem (s.cr3 + 8 * 510) (t + 8 * i) s.cr3 x (λ e. ne (sym e))
          ready.self;
    root = ready.root;
    tables = ready.tables;
    spare = ready.spare;
    fresh = ready.fresh;
    distinct = ready.distinct;
  }
