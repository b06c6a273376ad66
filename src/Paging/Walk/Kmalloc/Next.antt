-- ===== src/Paging/Walk/Kmalloc/Next.antt =====
-- A round of the `kmalloc` loop in a table that is there: what stays, and the next page.

use sbunix_public.Base.{ℕ, ◌+◌, ◌*◌, ◌<◌, ◌≡◌, ◌≢◌, inl, arith, sym}
use sbunix_public.Paging.Walk.{Machine}
use sbunix_public.Paging.Walk.Mmu.{pml4_index, pdpe_index, pgd_index, pte_index}
use sbunix_public.Paging.Walk.Entries.{Refers, Refers-store_ne}
use sbunix_public.Paging.Walk.Level.{IsReady, entry_ne, put, put-IsReady}
use sbunix_public.Paging.Walk.Maps.{HasPt}

-- The next page has the same tables, and the entry behind.
pub HasPt-next :
    (s : Machine) (used : ℕ → Type 0) (v t3 t2 t1 : ℕ)
    → pte_index v < 511
    → HasPt s used v t3 t2 t1
    → HasPt s used (v + 4096) t3 t2 t1
HasPt-next s used v t3 t2 t1 inside has =
    let e4 : pml4_index v ≡ pml4_index (v + 4096) = omega arith in
    let e3 : pdpe_index v ≡ pdpe_index (v + 4096) = omega arith in
    let e2 : pgd_index v ≡ pgd_index (v + 4096) = omega arith in
    record {
      above = record {
        above = record {
          inside = has.above.above.inside;
          entry = rw (← e4) has.above.above.entry;
          apart = has.above.above.apart;
        };
        inside = has.above.inside;
        entry = rw (← e3) has.above.entry;
        apart = has.above.apart;
        apart' = has.above.apart';
      };
      inside = has.inside;
      entry = rw (← e2) has.entry;
      apart = has.apart;
      apart' = has.apart';
      apart'' = has.apart'';
    }

-- A written entry and a new top of the addresses.
abbrev pub moved : Machine → ℕ → ℕ → ℕ → Machine
moved s a x top = record (put s a x) { top_virtual_address = top }

pub moved-IsReady :
    (s : Machine) (used : ℕ → Type 0) (base : ℕ) (addr : ℕ → ℕ) (k left a x top : ℕ)
    → IsReady (put s a x) used base addr k left
    → IsReady (moved s a x top) used base addr k left
moved-IsReady s used base addr k left a x top ready = record {
  pool = ready.pool;
  self = ready.self;
  root = ready.root;
  tables = ready.tables;
  spare = ready.spare;
  fresh = ready.fresh;
  distinct = ready.distinct;
}

module _ (s : Machine) (used : ℕ → Type 0) (base : ℕ) (addr : ℕ → ℕ) (k left v x t3 t2 t1 : ℕ)
    (ready : IsReady s used base addr k left) (has : HasPt s used v t3 t2 t1) where
  -- A write to the last table leaves the entries of the others, and its own others.
  kept_entry :
      (t i r : ℕ)
      → used t
      → i < 512
      → t ≢ t1
      → Refers s.pages.mem (t + 8 * i) r
      → Refers (put s (t1 + 8 * pte_index v) x).pages.mem (t + 8 * i) r
  kept_entry t i r u small ne e =
      Refers-store_ne s.pages.mem (t + 8 * i) (t1 + 8 * pte_index v) r x
        (entry_ne t i t1 (pte_index v) (ready.tables t u).0 (ready.tables t1 has.inside).0 small
          (omega arith) (inl ne))
        e

  pub put-HasPt : (top : ℕ) → HasPt (moved s (t1 + 8 * pte_index v) x top) used v t3 t2 t1
  put-HasPt top = record {
    above = record {
      above = record {
        inside = has.above.above.inside;
        entry =
            kept_entry s.cr3 (pml4_index v) t3 ready.root (omega arith) (λ e. has.apart (sym e))
              has.above.above.entry;
        apart = has.above.above.apart;
      };
      inside = has.above.inside;
      entry =
          kept_entry t3 (pdpe_index v) t2 has.above.above.inside (omega arith)
            (λ e. has.apart' (sym e)) has.above.entry;
      apart = has.above.apart;
      apart' = has.above.apart';
    };
    inside = has.inside;
    entry =
        kept_entry t2 (pgd_index v) t1 has.above.inside (omega arith) (λ e. has.apart'' (sym e))
          has.entry;
    apart = has.apart;
    apart' = has.apart';
    apart'' = has.apart'';
  }

  pub put_entry-IsReady :
      (top : ℕ) → IsReady (moved s (t1 + 8 * pte_index v) x top) used base addr k left
  put_entry-IsReady top = moved-IsReady s used base addr k left (t1 + 8 * pte_index v) x top (
      put-IsReady s used base addr k left t1 (pte_index v) x ready has.inside (omega arith) (
        entry_ne t1 (pte_index v) s.cr3 510 (ready.tables t1 has.inside).0
          (ready.tables s.cr3 ready.root).0 (omega arith) (omega arith) (inl has.apart)))
