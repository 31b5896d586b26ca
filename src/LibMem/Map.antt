-- ===== src/LibMem/Map.antt =====
-- The two functions of libmem.c that map a page of the device.
use driver_module_test.Prelude.{
  ◌<◌, ◌≡◌, refl, arith, ℕ, zero, suc, ◌+◌, ◌-◌, ◌*◌, ◌/◌, ◌%◌, ◌^◌, ℤ, Bool, true, false, not,
  ◌==◌, leb, ltb, ◌&&◌, if◌then◌else◌,
}
use driver_module_test.LibMem.{
  Call, Os, Proc, Outcome, returned, faulted, call, number, is_size, get_mem_fd, map_failed, plus,
}

-- All of `n` bytes from `a` on.
abbrev pub all_of : (ℕ → Bool) → (a n : ℕ) → Bool
all_of p a zero = true
all_of p a (suc n) = p a && all_of p (suc a) n

pub all_of-none : (p : ℕ → Bool) (a n : ℕ) → 0 < n → p a ≡ false → all_of p a n ≡ false
all_of-none p a zero lt e = absurd (omega (arith, lt))
all_of-none p a (suc n) lt e = ground (arith, e)

pub all_of-every :
    (p : ℕ → Bool) (a n : ℕ) → ((i : ℕ) → i < n → p (a + i) ≡ true) → all_of p a n ≡ true
all_of-every p a zero h = refl
all_of-every p a (suc n) h =
    ground (arith, h 0, all_of-every p (suc a) n (λ i lt. ground (arith, h (suc i))))

module _ (os : Os) where
  abbrev pub is_in_page : (page a : ℕ) → Bool
  is_in_page page a = leb page a && ltb a (page + os.page_size)

  -- `mmap` of one page with PROT_READ.
  abbrev map_page : (fd : ℤ) (offset : ℕ) → Proc → ℕ × Proc
  map_page fd offset s =
      let tmp = os.mmap s.tick fd offset in
      let t = if tmp == map_failed then s else record s {
        memory = λ a. if is_in_page tmp a then os.mapped s.tick fd offset (a - tmp) else s.memory a;
        is_readable = λ a. if is_in_page tmp a then true else s.is_readable a;
        is_writable = λ a. if is_in_page tmp a then false else s.is_writable a;
      } in
      (tmp, call (Call.mmap fd offset tmp) t)

  abbrev unmap_page : (tmp : ℕ) → Proc → Proc
  unmap_page tmp s = call (Call.munmap tmp) (record s {
    is_readable = λ a. if is_in_page tmp a then false else s.is_readable a;
    is_writable = λ a. if is_in_page tmp a then false else s.is_writable a;
  })

  -- The descriptor is never closed, and the page stays mapped where the size is refused.
  unfoldable pub read_dram_map_raw : (dram_addr size : ℕ) → Proc → Outcome
  read_dram_map_raw dram_addr size s =
      let opened = get_mem_fd os s in
      let aligned = dram_addr / os.page_size * os.page_size in
      let in_page_ofst = dram_addr % os.page_size in
      let m = map_page opened.0 aligned opened.1 in
      let from = plus m.0 in_page_ofst in
      if m.0 == 0
      then returned 1 m.1
      else (if not (is_size size)
          then returned 1 m.1
          else (if not (all_of m.1.is_readable from size)
              then faulted m.1
              else returned 0
                  (unmap_page m.0 (record m.1 { value = number size m.1.memory from }))))

  -- The low byte of the value first.
  abbrev pub store : (at value size : ℕ) → Proc → Proc
  store at value size s = record s {
    memory =
        λ a. if leb at a && ltb a (at + size) then value / 256 ^ (a - at) % 256 else s.memory a;
  }

  unfoldable pub write_dram_map_raw : (dram_addr value size : ℕ) → Proc → Outcome
  write_dram_map_raw dram_addr value size s =
      let opened = get_mem_fd os s in
      let aligned = dram_addr / os.page_size * os.page_size in
      let in_page_ofst = dram_addr % os.page_size in
      let m = map_page opened.0 aligned opened.1 in
      let to = plus m.0 in_page_ofst in
      if m.0 == 0
      then returned 1 m.1
      else (if not (is_size size)
          then returned 1 m.1
          else (if not (all_of m.1.is_writable to size)
              then faulted m.1
              else returned 0 (unmap_page m.0 (store to value size m.1))))
