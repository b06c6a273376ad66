-- ===== src/Paging/Walk/NewPml4.antt =====
-- `create_new_kernel_pml4` and `create_new_user_pml4` of sys/paging.c: the tables of a new process,
-- seen through a page at the top of the kernel's addresses, with the kernel's last entry and with the
-- recursive slot.
use Prim.Native.Nat.{bit_or}
use sbunix_public.Base.{ℕ, ◌*◌, Run, ok, ◌>>=◌, ◌==◌, if◌then◌else◌, Option}
use sbunix_public.Memory.{Memory, add64}
use sbunix_public.Paging.Address.{pagesize}
use sbunix_public.Paging.Walk.{
  Machine, load, set_word, page_kernel, page_user, page_walk, page_walk_user,
}

module _ (translate : Memory → ℕ → ℕ → Option ℕ) (kernel_pml4_t : ℕ) where
  -- What follows the walk: the two entries at `v_addr`.
  unfoldable pub fill_pml4 : (flags p_addr v_addr : ℕ) → Machine → Run (ℕ × Machine)
  fill_pml4 flags p_addr v_addr s =
      let moved = record s { top_virtual_address = add64 s.top_virtual_address pagesize } in
      load translate (add64 kernel_pml4_t (8 * 511)) moved >>= λ e.
      set_word translate (add64 v_addr (8 * 511)) e moved
      >>= set_word translate (add64 v_addr (8 * 510)) (bit_or p_addr flags)
      >>= λ t. ok (v_addr, t)

  pub create_new_kernel_pml4 : ℕ → Machine → Run (ℕ × Machine)
  create_new_kernel_pml4 p_addr s =
      let v_addr = s.top_virtual_address in
      page_walk translate p_addr v_addr s >>= λ (result, t).
      if result == 0 then ok (0, t) else fill_pml4 page_kernel p_addr v_addr t

  unfoldable pub create_new_user_pml4 : ℕ → Machine → Run (ℕ × Machine)
  create_new_user_pml4 p_addr s =
      let v_addr = s.top_virtual_address in
      page_walk_user translate p_addr v_addr s >>= λ (result, t).
      if result == 0 then ok (0, t) else fill_pml4 page_user p_addr v_addr t
