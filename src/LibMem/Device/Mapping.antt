-- ===== src/LibMem/Device/Mapping.antt =====
-- read_dram_map_raw of libmem.c over the driver of mem_map: the program's `mmap` runs mem_map_mmap.
use native.Mathlib.Nat.{one-le-pow}
use driver_module_test.Prelude.{
  ℕ, ◌+◌, ◌/◌, ◌%◌, ◌^◌, ◌<◌, ◌≤◌, ◌≡◌, ◌≢◌, ◌⊎◌, ℤ, pos, negsuc, is_zero, ◌==◌, ◌&&◌, Bool, true,
  false, ◌∙◌, arith, if◌then◌else◌,
}
use driver_module_test.Kernel.{Kernel, St, Run, ok, oops, out_of_fuel}
use driver_module_test.Kernel.After.{After}
use driver_module_test.MemMap.{Globals, page_size, phys_mod}
use driver_module_test.MemMap.Mmap.{Vma, mem_map_mmap, fits, answer, Maps, mem_map_mmap-Maps}
use driver_module_test.LibMem.{map_failed, Os, Proc, Outcome, returned, faulted, number, is_size}
use driver_module_test.LibMem.Map.{read_dram_map_raw}
use driver_module_test.LibMem.Transfer.{
  IsGuarded, left_open, opens, fd, page, Peeks, read_dram_map_raw-Peeks,
}

-- What the program gets where the driver's result is 0, and otherwise.
abbrev pub address : Run Globals (ℤ × Vma) → ℕ
address (ok (pos n, vma) t) = if n == 0 then vma.vm_start else map_failed
address _ = map_failed

module _ (k : Kernel) (o_dsync : Bool) (dram_addr at prot : ℕ) (d : St Globals) where
  -- One page at `at`, which shows the page of `dram_addr`.
  abbrev pub area : Vma
  area = record {
    vm_start = at;
    vm_end = at + page_size k;
    vm_pgoff = dram_addr / page_size k;
    vm_page_prot = prot;
  }

  abbrev pub map_run : Run Globals (ℤ × Vma)
  map_run = mem_map_mmap k o_dsync area d

  -- The driver takes the page, and the kernel maps it.
  abbrev pub is_granted : Bool
  is_granted = fits k area && is_zero (answer k o_dsync area d)

  address-Maps :
      (r : Run Globals (ℤ × Vma))
      → After (λ x t. Maps k o_dsync area d x t) (λ _. ⊥) r
      → address r ≡ (if is_granted then at else map_failed)
  address-Maps (ok (pos n, vma) t) h = ground (arith, h)
  address-Maps (ok (negsuc n, vma) t) h = ground (arith, h)
  address-Maps (oops t) h = absurd h
  address-Maps (out_of_fuel t) h = absurd h

  address-granted :
      page_size k < phys_mod k → address map_run ≡ (if is_granted then at else map_failed)
  address-granted small = address-Maps map_run (
      mem_map_mmap-Maps k o_dsync area d (ground (arith, one-le-pow k.page_shift 2 (omega arith)))
        (ground (arith, small)))

  module _ (os : Os) (size : ℕ) (s : Proc) where
    -- The number at the address, where the driver and the kernel granted the page; a fault, where
    -- they did not; or 1, where the size is refused. A descriptor that was opened is not closed.
    abbrev pub Shows : Outcome → Type 0
    Shows (returned ret t) =
        (left_open t.calls ≡ left_open s.calls + opens os dram_addr size s (fd os dram_addr size s))
        × (((ret ≡ 0) × (is_granted ≡ true) × (t.value ≡ number size d.globals.phys dram_addr))
            ⊎ ((ret ≡ 1) × (is_size size ≡ false)))
    Shows (faulted t) = (is_size size ≡ true) × (is_granted ≡ false)

  module _ (size : ℕ) (os : Os) (s : Proc) (same_pages : os.page_size ≡ page_size k)
      (mapped : page os dram_addr size s ≡ address map_run)
      (shows : (tick : ℕ) (fd : ℤ) (offset i : ℕ)
        → os.mapped tick fd offset i ≡ d.globals.phys (offset + i))
      (small : page_size k < phys_mod k) (there : at ≢ 0) (room : at + page_size k < 2 ^ 64) where
    page_lem : page os dram_addr size s ≡ (if is_granted then at else map_failed)
    page_lem = mapped ∙ address-granted small

    at_ne : at ≢ map_failed
    at_ne e = omega (arith, e, room, one-le-pow k.page_shift 2 (omega arith))

    Peeks-Shows : (o : Outcome) → Peeks os dram_addr size s d.globals.phys o → Shows os size s o
    Peeks-Shows (returned ret t) h = ground (arith, page_lem, h, there, at_ne)
    Peeks-Shows (faulted t) h = ground (arith, page_lem, h, there, at_ne)

    positive : 0 < os.page_size
    positive = rw same_pages (one-le-pow k.page_shift 2 (omega arith))

    inside :
        page os dram_addr size s ≢ map_failed → page os dram_addr size s + os.page_size ≤ 2 ^ 64
    inside ne = ground (arith, page_lem, same_pages, room, ne)

    -- Let the mmap of libmem.c run mem_map_mmap on an area of one page, which is smaller than
    -- the physical address space, and give the area's address where the result is 0 and
    -- MAP_FAILED otherwise; let a mapping show physical memory; let the area not start at NULL
    -- and lie within the 64-bit addresses, nothing of the process be mapped in the first page
    -- or at the last address, and the access stay within its page. Then read_dram_map_raw
    -- returns 0, with *value the number in physical memory at the address, the low byte first,
    -- only where the range ends within the physical addresses and remap_pfn_range succeeds; it
    -- faults only where one of these fails and the size is 1, 2 or 4; and it returns 1 only
    -- where the size is none of these. Wherever it returns, the descriptor that it opened stays
    -- open.
    pub read_dram_map_raw-Shows :
        IsGuarded os dram_addr size s
        → dram_addr % os.page_size + size ≤ os.page_size
        → Shows os size s (read_dram_map_raw os dram_addr size s)
    read_dram_map_raw-Shows guarded in_page = Peeks-Shows (read_dram_map_raw os dram_addr size s) (
        read_dram_map_raw-Peeks os dram_addr size s d.globals.phys guarded positive inside shows
          in_page)
