-- ===== src/LibMem/Device/Agree.antt =====
-- The two ways in which libmem.c reads the device of mem_map: by `read`, and by a mapping.
use mathlib.Core.Path.{subst}
use driver_module_test.Prelude.{
  ℕ, suc, ◌+◌, ◌-◌, ◌%◌, ◌<◌, ◌≤◌, ◌≡◌, ◌≢◌, ◌^◌, inl, inr, ℤ, sym, ◌∙◌, arith,
}
use driver_module_test.Kernel.{Kernel, St, final}
use driver_module_test.MemMap.{Globals, Serves, phys_mod}
use driver_module_test.MemMap.Seek.{word}
use driver_module_test.LibMem.{map_failed, Os, Proc, returned, number, read_dram_raw}
use driver_module_test.LibMem.Map.{read_dram_map_raw}
use driver_module_test.LibMem.Transfer
use driver_module_test.LibMem.Transfer.{IsGuarded, page, read_dram_map_raw-Peeks}
use driver_module_test.LibMem.Device.{result, seek_read, Peeks, read_dram_raw-Peeks}

module _ (k : Kernel) (laws : Serves k) (buf dram_addr size : ℕ) (d : St Globals) (os : Os) where
  -- Let the read of libmem.c run mem_map_lseek and mem_map_read, on a kernel that serves mappings
  -- and copies, at an address below the error patterns with the range within physical memory; and
  -- let a mapping show physical memory, with the access within its page, where pages are not
  -- empty, nothing of the process is mapped in the first page or at the last address, and the
  -- page lies within the 64-bit addresses. If read_dram_raw and read_dram_map_raw at the same
  -- address and size both return 0, they give the same *value.
  pub read_dram_raw-read_dram_map_raw :
      (low : dram_addr < word - 4095) (fits : dram_addr + size ≤ phys_mod k) (s s' t u : Proc)
      → os.read (suc (suc s.tick)) (os.open_mem s.tick) size ≡ (
        result (seek_read k buf dram_addr size d),
        λ i. (final (seek_read k buf dram_addr size d)).user (buf + i),
      )
      → ((tick : ℕ) (fd : ℤ) (offset i : ℕ)
          → os.mapped tick fd offset i ≡ d.globals.phys (offset + i))
      → IsGuarded os dram_addr size s'
      → 0 < os.page_size
      → (page os dram_addr size s' ≢ map_failed → page os dram_addr size s' + os.page_size ≤ 2 ^ 64)
      → dram_addr % os.page_size + size ≤ os.page_size
      → read_dram_raw os dram_addr size s ≡ returned 0 t
      → read_dram_map_raw os dram_addr size s' ≡ returned 0 u
      → t.value ≡ u.value
  read_dram_raw-read_dram_map_raw low fits s s' t u r shows guarded room inside in_page got mapped =
      let peeks : Peeks k buf dram_addr size d laws low fits os s (returned 0 t) =
        subst (Peeks k buf dram_addr size d laws low fits os s) got
          (read_dram_raw-Peeks k buf dram_addr size d laws low fits os s r) in
      let maps : Transfer.Peeks os dram_addr size s' d.globals.phys (returned 0 u) =
        subst (Transfer.Peeks os dram_addr size s' d.globals.phys) mapped (
          read_dram_map_raw-Peeks os dram_addr size s' d.globals.phys guarded room inside shows
            in_page) in
      let there : u.value ≡ number size d.globals.phys dram_addr = ground (arith, maps) in
      elim peeks [ inl (_, seen, _) ↦ seen ∙ sym there | inr (one, _) ↦ omega (arith, one) ]
