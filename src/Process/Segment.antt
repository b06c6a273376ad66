-- ===== src/Process/Segment.antt =====
-- How `create_process` of sys/task.c maps and fills the area of a segment.
use sbunix_public.Base.{
  ℕ, zero, suc, ◌+◌, ◌*◌, ◌%◌, ◌^◌, ◌<◌, ◌≡◌, ◌≢◌, refl, sym, ap, ◌∙◌, arith, eq→==, ne→==, Run, ok,
  some,
}
use sbunix_public.Memory.{Memory, store, add64, sub64}
use sbunix_public.Paging.Address.{page_align, round_up}
use sbunix_public.Process.{Paging, World, with_heap, read_byte, write_byte, copy_segment, map_file}

store_same : (m : Memory) (a v : ℕ) → store m a v a ≡ v
unfolding store
store_same m a v = rw (eq→== a a refl) refl

store_other : (m : Memory) (a v b : ℕ) → b ≢ a → store m a v b ≡ m b
unfolding store
store_other m a v b ne = rw (ne→== b a ne) refl

module _ {S : Type 0} (paging : Paging S) where
  -- The bytes from `a` on are at the physical places `places 0`, `places 1` and so on.
  abbrev pub AreAt : S → (a n : ℕ) → (ℕ → ℕ) → Type 0
  AreAt h a n places = (i : ℕ) → i < n → paging.translated h (a + i) ≡ some (places i)

  -- What the loop makes of memory.
  pub record IsCopied (n : ℕ) (to from : ℕ → ℕ) (m m' : Memory) : Type 0 where
    pub copied : (i : ℕ) → i < n → m' (to i) ≡ m (from i)
    pub kept : (p : ℕ) → ((i : ℕ) → i < n → p ≢ to i) → m' p ≡ m p

  pub moved_place :
      (h : S) (a b p : ℕ) → a ≡ b → paging.translated h a ≡ some p → paging.translated h b ≡ some p
  moved_place h a b p e at = ap (λ (x : ℕ). paging.translated h x) (sym e) ∙ at

  later_bytes :
      (h : S) (a n : ℕ) (places : ℕ → ℕ)
      → AreAt h a (suc n) places
      → AreAt h (a + 1) n (λ i. places (suc i))
  later_bytes h a n places at i lt =
      moved_place h (a + suc i) (a + 1 + i) (places (suc i)) (omega arith)
        (at (suc i) (omega arith))

  module _ (n : ℕ) (to from : ℕ → ℕ) (m m' : Memory)
      (apart : (i j : ℕ) → i < suc n → j < suc n → to i ≡ to j → i ≡ j)
      (clear : (i j : ℕ) → i < suc n → j < suc n → from i ≢ to j)
      (is : IsCopied n (λ i. to (suc i)) (λ i. from (suc i)) (store m (to 0) (m (from 0))) m') where
    copied_suc : (i : ℕ) → i < suc n → m' (to i) ≡ m (from i)
    copied_suc zero lt =
        is.kept (to 0)
          (λ i lt e. absurd (omega (arith, apart 0 (suc i) (omega arith) (omega arith) e)))
        ∙ store_same m (to 0) (m (from 0))
    copied_suc (suc i) lt =
        is.copied i (omega arith)
        ∙ store_other m (to 0) (m (from 0)) (from (suc i)) (clear (suc i) 0 lt (omega arith))

    IsCopied-suc : IsCopied (suc n) to from m m'
    IsCopied-suc = record {
      copied = copied_suc;
      kept = λ p out.
          is.kept p (λ i lt. out (suc i) (omega arith))
          ∙ store_other m (to 0) (m (from 0)) p (out 0 (omega arith));
    }

  pub read_byte_at :
      (p a : ℕ) (w : World S)
      → paging.translated w.store.heap p ≡ some a
      → read_byte paging p w ≡ ok (w.bytes a)
  unfolding read_byte
  read_byte_at p a w e = rw (read_byte, e) refl

  write_byte_at :
      (p v a : ℕ) (w : World S)
      → paging.translated w.store.heap p ≡ some a
      → write_byte paging p v w ≡ ok (record w { bytes = store w.bytes a v })
  unfolding write_byte
  write_byte_at p v a w e = rw (write_byte, e) refl

  pub copy_step :
      (n address offset next next' p q : ℕ) (w : World S) (r : Run (World S))
      → paging.translated w.store.heap address ≡ some p
      → paging.translated w.store.heap offset ≡ some q
      → add64 address 1 ≡ next
      → add64 offset 1 ≡ next'
      → copy_segment paging n next next' (record w { bytes = store w.bytes p (w.bytes q) }) ≡ r
      → copy_segment paging (suc n) address offset w ≡ r
  unfolding copy_segment
  copy_step n address offset next next' p q w r here there e e' run =
      rw (read_byte_at offset q w there, write_byte_at address (w.bytes q) p w here, e, e') run

  -- The loop copies its bytes, when all of them are mapped, to different places that are not those
  -- of the source.
  pub copy_segment_lem :
      (n address offset : ℕ) (w : World S) (to from : ℕ → ℕ)
      → address + n < 2 ^ 64
      → offset + n < 2 ^ 64
      → AreAt w.store.heap address n to
      → AreAt w.store.heap offset n from
      → ((i j : ℕ) → i < n → j < n → to i ≡ to j → i ≡ j)
      → ((i j : ℕ) → i < n → j < n → from i ≢ to j)
      → (m : Memory) × (copy_segment paging n address offset w ≡ ok (record w { bytes = m }))
        × IsCopied n to from w.bytes m
  unfolding copy_segment
  copy_segment_lem zero address offset w to from lo hi at at' apart clear =
      (w.bytes, refl, record { copied = λ i lt. absurd (omega arith); kept = λ p out. refl })
  copy_segment_lem (suc n) address offset w to from lo hi at at' apart clear =
      let here =
        moved_place w.store.heap (address + 0) address (to 0) (omega arith) (at 0 (omega arith)) in
      let there =
        moved_place w.store.heap (offset + 0) offset (from 0) (omega arith) (at' 0 (omega arith)) in
      let w1 : World S = record w { bytes = store w.bytes (to 0) (w.bytes (from 0)) } in
      let (m, run, is) =
        copy_segment_lem n (address + 1) (offset + 1) w1 (λ i. to (suc i)) (λ i. from (suc i))
          (omega arith) (omega arith) (later_bytes w.store.heap address n to at)
          (later_bytes w.store.heap offset n from at')
          (λ i j lt lt' e. omega (arith, apart (suc i) (suc j) (omega arith) (omega arith) e))
          (λ i j lt lt'. clear (suc i) (suc j) (omega arith) (omega arith)) in
      (
        m,
        copy_step n address offset (address + 1) (offset + 1) (to 0) (from 0) w
            (ok (record w { bytes = m })) here there (omega arith) (omega arith) run,
        IsCopied-suc n to from w.bytes m apart clear is,
      )

  pub map_file_step :
      (process_cr3 old_cr3 elf_head temp n start offset p q : ℕ) (w : World S) (h : S) (m : Memory)
      → start ≡ page_align (w.store.areas temp).vm_start
      → n ≡ round_up (sub64 (w.store.areas temp).vm_end start)
      → offset ≡ add64 elf_head (8 * (w.store.areas temp).vm_offset % 2 ^ 64)
      → paging.kmalloc_top_virtual_address_user n start (paging.set_cr3 process_cr3 w.store.heap)
        ≡ ok (start, h)
      → copy_segment paging n start offset (with_heap h w)
        ≡ ok (record (with_heap h w) { bytes = m })
      → paging.translated h (add64 start 1) ≡ some p
      → paging.translated h (add64 start 2) ≡ some q
      → map_file paging process_cr3 old_cr3 elf_head temp w
        ≡ ok (record w { store = record (w.store) { heap = paging.set_cr3 old_cr3 h }; bytes = m })
  unfolding map_file
  map_file_step process_cr3 old_cr3 elf_head temp n start offset p q w h m is_start is_n is_offset
        run copy second third =
      let w1 : World S = record (with_heap h w) { bytes = m } in
      rw
        (
          sym is_start,
          sym is_n,
          sym is_offset,
          run,
          copy,
          read_byte_at (add64 start 1) p w1 second,
          read_byte_at (add64 start 2) q w1 third,
        )
        refl

  -- `create_process` maps the area of a segment from the page boundary below its start on, up to the
  -- first page boundary at or above as many bytes as it then has. It fills it with the image, from
  -- eight times the offset of the segment on, and changes no other byte, structure or process; CR3 is
  -- that of the caller again. The request for the pages is served, all the bytes are mapped, those of
  -- the area at different places, and none of them is one of the image.
  pub map_file_lem :
      (process_cr3 old_cr3 elf_head temp n start offset : ℕ) (w : World S) (h : S) (to from : ℕ → ℕ)
      → start ≡ page_align (w.store.areas temp).vm_start
      → n ≡ round_up (sub64 (w.store.areas temp).vm_end start)
      → offset ≡ add64 elf_head (8 * (w.store.areas temp).vm_offset % 2 ^ 64)
      → paging.kmalloc_top_virtual_address_user n start (paging.set_cr3 process_cr3 w.store.heap)
        ≡ ok (start, h)
      → 2 < n
      → start + n < 2 ^ 64
      → offset + n < 2 ^ 64
      → AreAt h start n to
      → AreAt h offset n from
      → ((i j : ℕ) → i < n → j < n → to i ≡ to j → i ≡ j)
      → ((i j : ℕ) → i < n → j < n → from i ≢ to j)
      → (m : Memory) × (map_file paging process_cr3 old_cr3 elf_head temp w
          ≡ ok (record w {
            store = record (w.store) { heap = paging.set_cr3 old_cr3 h };
            bytes = m;
          }))
        × IsCopied n to from w.bytes m
  map_file_lem process_cr3 old_cr3 elf_head temp n start offset w h to from is_start is_n is_offset
        run some_bytes lo hi at at' apart clear =
      let (m, copy, is) =
        copy_segment_lem n start offset (with_heap h w) to from lo hi at at' apart clear in
      let at_place = λ (k : ℕ) (lt : k < n).
        moved_place h (start + k) (add64 start k) (to k) (omega arith) (at k lt) in
      (
        m,
        map_file_step process_cr3 old_cr3 elf_head temp n start offset (to 1) (to 2) w h m is_start
            is_n is_offset run copy (at_place 1 (omega arith)) (at_place 2 (omega arith)),
        is,
      )
