-- ===== src/LibMem/Device/RoundTrip.antt =====
-- write_dram_raw and then read_dram_raw of libmem.c, over the driver of mem_map.
use mathlib.Core.Path.{subst}
use driver_module_test.Prelude.{
  ℕ, suc, ◌+◌, ◌-◌, ◌/◌, ◌%◌, ◌^◌, ◌<◌, ◌≤◌, ◌≡◌, inl, inr, ap, ◌∙◌, arith,
}
use driver_module_test.Kernel.{Kernel, St, final}
use driver_module_test.MemMap.{Globals, Serves, phys_mod}
use driver_module_test.MemMap.Seek.{word}
use driver_module_test.LibMem.{Os, Proc, returned, number, read_dram_raw, write_dram_raw}
use driver_module_test.LibMem.Device.{
  result, seek_read, seek_write, Peeks, Pokes, read_dram_raw-Peeks, write_dram_raw-Pokes,
}

module _ (k : Kernel) (laws : Serves k) (buf dram_addr size value : ℕ)
    (low : dram_addr < word - 4095) (fits : dram_addr + size ≤ phys_mod k) where
  -- Let libmem.c run over the driver of mem_map, on a kernel that serves mappings and copies, at
  -- an address below the error patterns with the range within physical memory. If a
  -- write_dram_raw returned 0 and a later read_dram_raw at the same address and size, which finds
  -- physical memory as the write left it, returned 0, then *value is the written value modulo 256
  -- to the size.
  pub read-write_dram_raw :
      (d e : St Globals) (os os' : Os) (s s' t u : Proc)
      → os.write (suc (suc s.tick)) (os.open_mem s.tick) (value % 256 ^ size) size
        ≡ result (seek_write k buf dram_addr size d)
      → ((i : ℕ) → i < size → d.user (buf + i) ≡ value % 256 ^ size / 256 ^ i % 256)
      → e.globals.phys ≡ (final (seek_write k buf dram_addr size d)).globals.phys
      → os'.read (suc (suc s'.tick)) (os'.open_mem s'.tick) size ≡ (
        result (seek_read k buf dram_addr size e),
        λ i. (final (seek_read k buf dram_addr size e)).user (buf + i),
      )
      → write_dram_raw os dram_addr value size s ≡ returned 0 t
      → read_dram_raw os' dram_addr size s' ≡ returned 0 u
      → u.value ≡ value % 256 ^ size
  read-write_dram_raw d e os os' s s' t u w bytes same r wrote got =
      let pokes : Pokes k buf dram_addr size d laws low fits os value s (returned 0 t) =
        subst (Pokes k buf dram_addr size d laws low fits os value s) wrote
          (write_dram_raw-Pokes k buf dram_addr size d laws low fits os value s w bytes) in
      let peeks : Peeks k buf dram_addr size e laws low fits os' s' (returned 0 u) =
        subst (Peeks k buf dram_addr size e laws low fits os' s') got
          (read_dram_raw-Peeks k buf dram_addr size e laws low fits os' s' r) in
      elim pokes [
        | inl (_, stored, _, _) ↦ elim peeks [
          | inl (_, seen, _) ↦ seen ∙ ap (λ f. number size f dram_addr) same ∙ stored
          | inr (one, _) ↦ omega (arith, one)
        ]
        | inr (one, _) ↦ omega (arith, one)
      ]
