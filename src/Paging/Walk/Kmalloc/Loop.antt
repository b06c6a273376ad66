-- ===== src/Paging/Walk/Kmalloc/Loop.antt =====
-- The loop of the `kmalloc` family inside one page table.

use sbunix_public.Base.{
  ℕ, zero, suc, ◌+◌, ◌*◌, ◌^◌, ◌<◌, ◌≤◌, ◌≡◌, ◌≢◌, ◌⊎◌, inl, inr, arith, sym, ap, ◌∙◌, refl, Option,
  ok, ne→==,
}
use Prim.Native.Nat.{bit_or}
use sbunix_public.Memory.{Memory, store, add64}
use sbunix_public.Paging.Address.{is_valid_page, pagesize}
use sbunix_public.Paging.Walk.{Machine, walk_pml4, kmalloc_loop}
use sbunix_public.Paging.Walk.Mmu.{pml4_index, pte_index, IsX86}
use sbunix_public.Paging.Walk.Entries.{Refers, IsFlags, Refers-store_ne, Refers-store_self}
use sbunix_public.Paging.Walk.Level.{IsReady, WithPage, entry_ne, taken, take_IsReady, take_Refers}
use sbunix_public.Paging.Walk.Maps.{HasPt}
use sbunix_public.Paging.Walk.PageWalk.{walk_run}
use sbunix_public.Paging.Walk.Kmalloc.{taken_entry, taken-HasPt, page_of_round}
use sbunix_public.Paging.Walk.Kmalloc.Next.{HasPt-next, put-HasPt, put_entry-IsReady, moved}

-- `n` entries of table `t1`, from entry `i` on, that hold no page.
pub record IsFree (s : Machine) (i t1 n : ℕ) : Type 0 where
  pub room : i + n ≤ 512
  pub free : (j : ℕ) → j < n → is_valid_page (s.pages.mem (t1 + 8 * (i + j))) ≢ 1

-- The last table for `v` is `t1`, and its entry there `i`.
pub record AtPage (s : Machine) (used : ℕ → Type 0) (v i t3 t2 t1 : ℕ) : Type 0 where
  pub has : HasPt s used v t3 t2 t1
  pub index : pte_index v ≡ i
  pub other : pml4_index v ≢ 510

-- From `s` to `t`, the `n` entries came to refer to the pages from `addr k` on, and the other tables
-- and the entries before stayed as they were.
pub record IsFilled (s t : Machine) (used : ℕ → Type 0) (addr : ℕ → ℕ) (k i t1 n : ℕ) : Type 0 where
  pub cr3 : t.cr3 ≡ s.cr3
  pub filled : (j : ℕ) → j < n → Refers t.pages.mem (t1 + 8 * (i + j)) (addr (k + j))
  pub keep :
      (table j r : ℕ)
      → used table
      → j < 512
      → (table ≢ t1) ⊎ (j < i)
      → Refers s.pages.mem (table + 8 * j) r
      → Refers t.pages.mem (table + 8 * j) r

pub same_Refers : {m : Memory} {a b r r' : ℕ} → a ≡ b → r ≡ r' → Refers m a r → Refers m b r'
same_Refers {m} e e' h = rw (← e, ← e') h

-- The first of the entries, and those behind it.
filled_round :
    (m : Memory) (addr : ℕ → ℕ) (t1 i k n : ℕ)
    → Refers m (t1 + 8 * i) (addr k)
    → ((j : ℕ) → j < n → Refers m (t1 + 8 * (i + 1 + j)) (addr (suc k + j)))
    → (j : ℕ) → j < suc n
    → Refers m (t1 + 8 * (i + j)) (addr (k + j))
filled_round m addr t1 i k n first next zero lt =
    same_Refers (omega arith) (ap addr (omega arith)) first
filled_round m addr t1 i k n first next (suc j) lt =
    same_Refers (omega arith) (ap addr (omega arith)) (next j (omega arith))

-- What a loop of `n` rounds makes of the top of the addresses.
unfoldable pub tops : ℕ → ℕ → ℕ → ℕ
tops step zero top = top
tops step (suc n) top = tops step n (add64 top step)

module _ (translate : Memory → ℕ → ℕ → Option ℕ) (x86 : IsX86 translate) (flags step : ℕ)
    (valid : IsFlags flags) (base rest : ℕ) (addr : ℕ → ℕ) (t3 t2 t1 : ℕ) where
  -- What a round makes of the machine.
  abbrev after : Machine → ℕ → ℕ → Machine
  after s k v =
      moved (taken s) (t1 + 8 * pte_index v) (bit_or (addr k) flags)
        (add64 s.top_virtual_address step)

  module _ (s : Machine) (used : ℕ → Type 0) (k n v i : ℕ)
      (ready : IsReady s used base addr k (suc (n + rest))) (at : AtPage s used v i t3 t2 t1) where
    after-IsFree : (c : ℕ) → IsFree s i t1 (suc c) → IsFree (after s k v) (i + 1) t1 c
    unfolding store
    after-IsFree c h = record {
      room = omega (arith, h.room);
      free = λ j lt.
          let same =
            taken_entry s used base addr k (n + rest) ready v t1 (i + 1 + j) at.has.inside
              (omega (arith, h.room)) in
          let e : i + 1 + j ≡ i + suc j = omega arith in
          rw
            (ne→== (t1 + 8 * (i + 1 + j)) (t1 + 8 * pte_index v) (omega (arith, at.index)), same, e)
            (h.free (suc j) (omega arith));
    }

    -- One round in a table that is there.
    table_round :
        (c : ℕ)
        → IsFree s i t1 (suc c)
        → addr k ≢ 0
        → kmalloc_loop translate (walk_pml4 translate flags) step (suc n) v s
          ≡ kmalloc_loop translate
              (walk_pml4 translate flags)
              step
              n
              (add64 v pagesize)
              (after s k v)
    unfolding kmalloc_loop
    table_round c h live =
        let has' = taken-HasPt s used base addr k (n + rest) ready v t3 t2 t1 at.has in
        let index : pte_index v ≡ i + 0 = omega (arith, at.index) in
        let same =
          taken_entry s used base addr k (n + rest) ready v t1 (pte_index v) at.has.inside
            (omega arith) in
        let first : is_valid_page (s.pages.mem (t1 + 8 * pte_index v)) ≢ 1 =
          rw index (h.free 0 (omega arith)) in
        let run =
          walk_run translate x86 flags (addr k) v (taken s) (WithPage used (addr k)) base (suc k)
            (n + rest) addr (take_IsReady s used base addr k (n + rest) ready) t3 t2 t1 has'
            (λ e. first (ap is_valid_page (sym same) ∙ e)) in
        rw (page_of_round s used base addr k (n + rest) ready, ne→== (addr k) 0 live, run) refl

    -- The conclusion for a round and the rounds behind it.
    IsFilled-round :
        (t : Machine)
        → IsFilled (after s k v) t (WithPage used (addr k)) addr (suc k) (i + 1) t1 n
        → IsFilled s t used addr k i t1 (suc n)
    IsFilled-round t h =
        let m = (taken s).pages.mem in
        let a = t1 + 8 * pte_index v in
        let through =
          λ (table j r : ℕ) (u : used table) (small : j < 512)
              (ne : (table ≢ t1) ⊎ (j ≢ pte_index v)) (e : Refers s.pages.mem (table + 8 * j) r).
            Refers-store_ne m (table + 8 * j) a r (bit_or (addr k) flags)
              (entry_ne table j t1 (pte_index v) (ready.tables table u).0
                (ready.tables t1 at.has.inside).0 small (omega arith) ne)
              (take_Refers s used base addr k (n + rest) ready table j r u small e) in
        let here =
          Refers-store_self m a (addr k) flags (ready.spare k (omega arith) (omega arith)).0
            valid in
        record {
          cr3 = h.cr3;
          filled =
              filled_round t.pages.mem addr t1 i k n
                (h.keep t1 i (addr k) (inr at.has.inside) (omega (arith, at.index))
                  (inr (omega arith)) (same_Refers (omega (arith, at.index)) refl here))
                h.filled;
          keep = λ table j r u small ne e. elim ne [
            | inl away ↦
                h.keep table j r (inr u) small (inl away) (through table j r u small (inl away) e)
            | inr before ↦
                h.keep table j r (inr u) small (inr (omega arith))
                  (through table j r u small (inr (omega (arith, at.index))) e)
          ];
        }

    -- The next page is in the same table, as long as there is one.
    after-AtPage :
        i + 1 < 512 → AtPage (after s k v) (WithPage used (addr k)) (v + 4096) (i + 1) t3 t2 t1
    after-AtPage room =
        let inside : pte_index v < 511 = omega (arith, at.index) in
        record {
          has = HasPt-next (after s k v) (WithPage used (addr k)) v t3 t2 t1 inside (
              put-HasPt (taken s) (WithPage used (addr k)) base addr (suc k) (n + rest) v
                (bit_or (addr k) flags) t3 t2 t1 (take_IsReady s used base addr k (n + rest) ready)
                (taken-HasPt s used base addr k (n + rest) ready v t3 t2 t1 at.has)
                (add64 s.top_virtual_address step));
          index = omega (arith, at.index);
          other = λ e. at.other (omega (arith, inside));
        }

    after-IsReady : IsReady (after s k v) (WithPage used (addr k)) base addr (suc k) (n + rest)
    after-IsReady =
        put_entry-IsReady (taken s) (WithPage used (addr k)) base addr (suc k) (n + rest) v
          (bit_or (addr k) flags) t3 t2 t1 (take_IsReady s used base addr k (n + rest) ready)
          (taken-HasPt s used base addr k (n + rest) ready v t3 t2 t1 at.has)
          (add64 s.top_virtual_address step)

  -- From `s` to `t` with `n` pages more mapped, and room for `c` pages more.
  pub record IsReadyAfter (s t : Machine) (used : ℕ → Type 0) (k v i n c : ℕ) : Type 1 where
    pub used' : ℕ → Type 0
    pub ready : IsReady t used' base addr (k + n) rest
    pub at : 0 < c → AtPage t used' (v + 4096 * n) (i + n) t3 t2 t1
    pub free : IsFree t (i + n) t1 c

  pub loop_fills :
      (n c : ℕ) (s : Machine) (used : ℕ → Type 0) (k v i : ℕ)
      → IsReady s used base addr k (n + rest)
      → (0 < n + c → AtPage s used v i t3 t2 t1)
      → IsFree s i t1 (n + c)
      → ((j : ℕ) → j < n → addr (k + j) ≢ 0)
      → v + 4096 * n < 2 ^ 64
      → (t : Machine) × (kmalloc_loop translate (walk_pml4 translate flags) step n v s ≡ ok (1, t))
        × IsFilled s t used addr k i t1 n
        × (t.top_virtual_address ≡ tops step n s.top_virtual_address)
        × IsReadyAfter s t used k v i n c
  unfolding tops
  loop_fills zero c s used k v i ready at free live small =
      let k0 : k + 0 ≡ k = omega arith in
      let v0 : v + 4096 * 0 ≡ v = omega arith in
      let i0 : i + 0 ≡ i = omega arith in
      let c0 : 0 + c ≡ c = omega arith in
      let r0 : 0 + rest ≡ rest = omega arith in
      (
        s,
        unfold kmalloc_loop in refl,
        record { cr3 = refl; filled = λ j lt. omega arith; keep = λ table j r u h ne e. e },
        refl,
        record {
          used' = used;
          ready = rw k0 (rw r0 at ready);
          at = λ some. rw (v0, i0) (at (omega arith));
          free = rw i0 (rw c0 at free);
        },
      )
  loop_fills (suc n) c s used k v i ready at free live small =
      let one : suc n + rest ≡ suc (n + rest) = omega arith in
      let one' : suc n + c ≡ suc (n + c) = omega arith in
      let ready' = rw one at ready in
      let free' = rw one' at free in
      let here = at (omega arith) in
      let next : add64 v pagesize ≡ v + 4096 = omega arith in
      let first : k ≡ k + 0 = omega arith in
      let nonzero : addr k ≢ 0 = rw first (live 0 (omega arith)) in
      let (t, run, fill, top, after') =
        loop_fills n c (after s k v) (WithPage used (addr k)) (suc k) (v + 4096) (i + 1)
          (after-IsReady s used k n v i ready' here)
          (λ more. after-AtPage s used k n v i ready' here (omega (arith, free.room)))
          (after-IsFree s used k n v i ready' here (n + c) free')
          (λ j lt. let e : suc k + j ≡ k + suc j = omega arith in rw e (live (suc j) (omega arith)))
          (omega arith) in
      let ks : k + suc n ≡ suc k + n = omega arith in
      let vs : v + 4096 * suc n ≡ v + 4096 + 4096 * n = omega arith in
      let is : i + suc n ≡ i + 1 + n = omega arith in
      (
        t,
        table_round s used k n v i ready' here (n + c) free' nonzero
            ∙ ap
                (λ (w : ℕ).
                  kmalloc_loop translate (walk_pml4 translate flags) step n w (after s k v))
                next
            ∙ run,
        IsFilled-round s used k n v i ready' here t fill,
        top,
        record {
          used' = after'.used';
          ready = rw ks after'.ready;
          at = λ some. rw (vs, is) (after'.at some);
          free = rw is after'.free;
        },
      )
