-- ===== src/MemMap/Read.antt =====
-- `mem_map_read` of mem_map/mem_map.c.
pub mod Balance
pub mod Returns
pub mod Content
use driver_module_test.Prelude.{
  ℕ, zero, suc, ◌+◌, ◌-◌, ◌%◌, ℤ, pos, negsuc, is_zero, Bool, true, false, not, ◌==◌, if◌then◌else◌,
}
use driver_module_test.Kernel.{Event, Kernel, St, ok, out_of_fuel, M, pure, get, put, ◌>>=◌, ◌>>◌}
use driver_module_test.Kernel.Calls.{void, kmalloc}
use driver_module_test.MemMap.{
  Globals, page_size, phys_mod, size_inside_page, my_xlate_dev_mem_ptr, my_unxlate_dev_mem_ptr,
  probe_kernel_read, copy_to_user,
}

-- *ppos += n
abbrev advance : ℕ → M Globals (Unit {0})
advance n = do g ← get; put (record g { ppos = g.ppos + n })

-- The label `failed`, with err = -EFAULT.
unfoldable pub failed : ℕ → M Globals ℤ
failed bounce = do void (Event.kfree bounce); pure (negsuc 13)

unfoldable pub finish : (bounce read : ℕ) → M Globals ℤ
finish bounce read = do void (Event.kfree bounce); advance read; pure (pos read)

module _ (k : Kernel) where
  -- One round: true if the piece went from `p` to the caller at `buf`.
  unfoldable pub read_piece : (bounce buf p sz : ℕ) → M Globals Bool
  unfolding my_xlate_dev_mem_ptr my_unxlate_dev_mem_ptr
  read_piece bounce buf p sz = do
    ptr ← my_xlate_dev_mem_ptr k p
    if ptr == 0 then pure false else (do
      probe ← probe_kernel_read k bounce ptr sz
      my_unxlate_dev_mem_ptr k p ptr
      if not (is_zero probe)
          then pure false
          else (do remaining ← copy_to_user k buf bounce sz; pure (remaining == 0)))

  -- while (count > 0)
  unfoldable pub read_loop : ℕ → (bounce buf p count read : ℕ) → M Globals ℤ
  unfolding finish failed
  read_loop zero bounce buf p count read = out_of_fuel
  read_loop (suc fuel) bounce buf p count read = if count == 0 then finish bounce read else (do
    let sz = size_inside_page k p count
    copied ← read_piece bounce buf p sz
    if copied
        then read_loop fuel bounce (buf + sz) ((p + sz) % phys_mod k) (count - sz) (read + sz)
        else failed bounce)

  -- The position that does not fit a physical address reads as the end of the file.
  unfoldable pub mem_map_read : (buf count : ℕ) → M Globals ℤ
  unfolding read_loop
  mem_map_read buf count = do
    g ← get
    let p = g.ppos % phys_mod k
    if not (p == g.ppos) then pure (pos 0) else (do
      bounce ← kmalloc k (page_size k)
      if bounce == 0 then pure (negsuc 11) else read_loop (suc count) bounce buf p count 0)
