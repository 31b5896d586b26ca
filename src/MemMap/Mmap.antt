-- ===== src/MemMap/Mmap.antt =====
-- `mem_map_mmap` of mem_map/mem_map.c.
use native.Mathlib.Nat.{
  mod-lt, mod-eq_of_lt, mul-div_cancel, div-mul-le_self, add-mod_right, one-le-pow,
}
use native.Mathlib.Decide.{dec_lt}
use driver_module_test.Prelude.{
  ℕ, ◌+◌, ◌-◌, ◌*◌, ◌/◌, ◌%◌, ◌≤◌, ◌<◌, ◌≡◌, ◌≢◌, ℤ, pos, negsuc, is_zero, Bool, true, false, not,
  ◌||◌, ◌==◌, leb, ltb, if◌then◌else◌, arith, ap, refl, ◌∙◌, Bool-cases, inl, inr, ◌∷◌,
}
use driver_module_test.Kernel.{Event, Kernel, St, M, pure, ◌>>=◌}
use driver_module_test.Kernel.Calls.{remap_pfn_range}
use driver_module_test.Kernel.After.{After}
use driver_module_test.MemMap.{Globals, page_size, phys_mod}

pub record Vma : Type 0 where
  pub vm_start : ℕ
  pub vm_end : ℕ
  pub vm_pgoff : ℕ
  pub vm_page_prot : ℕ

module _ (k : Kernel) where
  -- Through a file opened with O_DSYNC, and above the memory that the kernel knows of.
  uncached_access : (o_dsync : Bool) (addr : ℕ) → Bool
  uncached_access o_dsync addr = if o_dsync then true else leb k.high_memory addr

  my_phys_mem_access_prot : (o_dsync : Bool) (pfn size vma_prot : ℕ) → ℕ
  unfolding uncached_access
  my_phys_mem_access_prot o_dsync pfn size vma_prot =
      let offset = pfn * page_size k % phys_mod k in
      if uncached_access o_dsync offset then k.noncached vma_prot else vma_prot

  -- `vm_pgoff << PAGE_SHIFT`, in a `phys_addr_t`.
  abbrev offset_of : Vma → ℕ
  offset_of vma = vma.vm_pgoff * page_size k % phys_mod k

  -- The offset does not fit, or the range wraps around the end of the address space.
  is_rejected : (offset size pgoff : ℕ) → Bool
  is_rejected offset size pgoff =
      not (offset / page_size k == pgoff)
      || ltb ((offset + size % phys_mod k + phys_mod k - 1) % phys_mod k) offset

  -- The result, and the area with its new protection.
  pub mem_map_mmap : (o_dsync : Bool) → Vma → M Globals (ℤ × Vma)
  unfolding is_rejected my_phys_mem_access_prot
  mem_map_mmap o_dsync vma =
      let size = vma.vm_end - vma.vm_start in
      let prot = my_phys_mem_access_prot o_dsync vma.vm_pgoff size vma.vm_page_prot in
      if is_rejected (offset_of vma) size vma.vm_pgoff then pure (negsuc 21, vma) else (do
        r ← remap_pfn_range k vma.vm_start vma.vm_pgoff size prot
        pure ((if is_zero r then pos 0 else negsuc 10), record vma { vm_page_prot = prot }))

module _ (x size m : ℕ) (room : 0 < size) (small : size < m) where
  end_inside : x + size ≤ m → (x + size % m + m - 1) % m ≡ x + size - 1
  end_inside le =
      let shown : x + size % m + m - 1 ≡ x + size - 1 + m = omega (arith, mod-eq_of_lt small) in
      rw shown (add-mod_right (x + size - 1) m ∙ mod-eq_of_lt (omega arith))

  end_wraps : m < x + size → x < m → (x + size % m + m - 1) % m ≡ x + size - 1 - m
  end_wraps lt h =
      let y = x + size - 1 - m in
      let shown : x + size % m + m - 1 ≡ y + m + m = omega (arith, mod-eq_of_lt small) in
      rw shown (add-mod_right (y + m) m ∙ add-mod_right y m ∙ mod-eq_of_lt (omega arith))

-- The test of `mem_map_mmap` over any page size and any size of the address space.
module _ (pgoff s m size : ℕ) (hs : 0 < s) (room : 0 < size) (small : size < m) where
  abbrev offset : ℕ
  offset = pgoff * s % m

  abbrev fails : Bool
  fails = not (offset / s == pgoff) || ltb ((offset + size % m + m - 1) % m) offset

  fails_not : pgoff * s + size ≤ m → fails ≡ false
  fails_not le =
      let same : offset ≡ pgoff * s = mod-eq_of_lt (omega arith) in
      ground (arith, same, end_inside (pgoff * s) size m room small le, mul-div_cancel pgoff hs)

  fails_else : m < pgoff * s + size → fails ≡ true
  fails_else lt = elim (dec_lt (pgoff * s) m) [
    | yes h ↦ ground (
      arith,
      mod-eq_of_lt h,
      end_wraps (pgoff * s) size m room small lt h,
      mul-div_cancel pgoff hs,
    )
    | no h ↦
        let differs : offset / s ≢ pgoff = λ e. absurd (
          omega (
            arith,
            div-mul-le_self offset s,
            ap (λ q. q * s) e,
            mod-lt (pgoff * s) {m = m} (omega arith),
          )) in
        ground (arith, differs)
  ]

module _ (k : Kernel) where
  abbrev pub fits : Vma → Bool
  fits vma = leb (vma.vm_pgoff * page_size k + (vma.vm_end - vma.vm_start)) (phys_mod k)

  module _ (o_dsync : Bool) (vma : Vma) (s : St Globals) where
    abbrev size : ℕ
    size = vma.vm_end - vma.vm_start

    abbrev pub protection : ℕ
    protection =
        if (if o_dsync then true else leb k.high_memory (vma.vm_pgoff * page_size k))
        then k.noncached vma.vm_page_prot
        else vma.vm_page_prot

    abbrev pub answer : ℤ
    answer = k.remap_pfn_range s.tick vma.vm_start vma.vm_pgoff size protection

    -- A range beyond the end is refused with -EINVAL, with no call and no change; any other is
    -- handed to `remap_pfn_range` whole, whose failure is -EAGAIN.
    abbrev pub Maps : ℤ × Vma → St Globals → Type 0
    Maps r t =
        if fits vma
        then (t.history
            ≡ Event.remap_pfn_range vma.vm_start vma.vm_pgoff size protection answer ∷ s.history)
          × (r.0 ≡ (if is_zero answer then pos 0 else negsuc 10))
          × (r.1 ≡ record vma { vm_page_prot = protection })
        else (r.0 ≡ negsuc 21) × (r.1 ≡ vma) × (t.history ≡ s.history)

    offset_lem : fits vma ≡ true → 0 < size → offset_of k vma ≡ vma.vm_pgoff * page_size k
    offset_lem e room = mod-eq_of_lt (ground arith)

    -- For an area that is not empty and is smaller than the physical address space, the two
    -- tests of mem_map_mmap in wrap-around arithmetic are together the test that the range ends
    -- within the physical addresses. A range that does is handed to remap_pfn_range whole,
    -- uncached if the file is O_DSYNC or the address lies above the kernel's memory, the area
    -- gets that protection and is left as it is otherwise, and the result is 0 or -EAGAIN by
    -- the answer; any other is refused with -EINVAL, without a call and with the area
    -- unchanged.
    pub mem_map_mmap-Maps :
        vma.vm_start < vma.vm_end
        → size < phys_mod k
        → After (λ r t. Maps r t) (λ _. ⊥) (mem_map_mmap k o_dsync vma s)
    unfolding mem_map_mmap
    mem_map_mmap-Maps lt small =
        let room : 0 < size = omega arith in
        let positive : 0 < page_size k = one-le-pow k.page_shift 2 (omega arith) in
        elim (Bool-cases (fits vma)) [
          | inl yes_fits ↦
              rw
                (
                  yes_fits,
                  fails_not vma.vm_pgoff (page_size k) (phys_mod k) size positive room small
                      (ground (arith, yes_fits)),
                  offset_lem yes_fits room,
                )
                (refl, refl, refl)
          | inr beyond ↦
              rw
                (
                  beyond,
                  fails_else vma.vm_pgoff (page_size k) (phys_mod k) size positive room small
                      (ground (arith, beyond)),
                )
                (refl, refl, refl)
        ]
