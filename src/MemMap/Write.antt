-- ===== src/MemMap/Write.antt =====
-- `mem_map_write` of mem_map/mem_map.c.
pub mod Content
pub mod Balance
use driver_module_test.Prelude.{
  ℕ, zero, suc, ◌+◌, ◌-◌, ◌/◌, ◌%◌, ℤ, pos, negsuc, Bool, true, false, not, Option, none, some,
  ◌==◌, if◌then◌else◌,
}
use driver_module_test.Kernel.{Kernel, out_of_fuel, M, pure, get, put, ◌>>=◌, ◌>>◌}
use driver_module_test.MemMap.{
  Globals, page_size, phys_mod, page_is_allowed, size_inside_page, my_xlate_dev_mem_ptr,
  my_unxlate_dev_mem_ptr, copy_from_user,
}

-- *ppos += written; return written;
unfoldable pub finish : ℕ → M Globals ℤ
finish written = do g ← get; put (record g { ppos = g.ppos + written }); pure (pos written)

-- Out of the loop if something was written, and -EFAULT otherwise.
unfoldable pub stop : ℕ → M Globals ℤ
unfolding finish
stop written = if written == 0 then pure (negsuc 13) else finish written

module _ (k : Kernel) where
  -- The number of bytes that were not copied, or none if the page could not be mapped.
  unfoldable pub write_piece : (buf p sz : ℕ) → M Globals (Option ℕ)
  unfolding my_xlate_dev_mem_ptr my_unxlate_dev_mem_ptr
  write_piece buf p sz = do
    ptr ← my_xlate_dev_mem_ptr k p
    if ptr == 0 then pure none else (do
      copied ← copy_from_user k ptr buf sz
      my_unxlate_dev_mem_ptr k p ptr
      pure (some copied))

  -- while (count > 0)
  unfoldable pub write_loop : ℕ → (buf p count written : ℕ) → M Globals ℤ
  unfolding finish stop
  write_loop zero buf p count written = out_of_fuel
  write_loop (suc fuel) buf p count written =
      if count == 0
      then finish written
      else (if not (page_is_allowed (p / page_size k)) then pure (negsuc 0) else (do
        let sz = size_inside_page k p count
        copied ← write_piece buf p sz
        elim copied [
          | none ↦ stop written
          | some left ↦
              if left == 0
              then write_loop fuel (buf + sz) ((p + sz) % phys_mod k) (count - sz) (written + sz)
              else stop (written + (sz - left))
        ]))

  -- A position that does not fit a physical address is refused with -EFBIG.
  unfoldable pub mem_map_write : (buf count : ℕ) → M Globals ℤ
  unfolding write_loop
  mem_map_write buf count = do
    g ← get
    let p = g.ppos % phys_mod k
    if not (p == g.ppos) then pure (negsuc 26) else write_loop (suc count) buf p count 0
