-- ===== src/LibMem/Transfer.antt =====
-- What the functions of libmem.c deliver, and what they leave open.
use native.Mathlib.Nat.{mod-lt, mod-eq_of_lt, div-add-mod'}
use driver_module_test.Prelude.{
  ℕ, suc, ◌+◌, ◌-◌, ◌*◌, ◌/◌, ◌%◌, ◌^◌, ◌<◌, ◌≤◌, ◌≡◌, ◌≢◌, ◌⊎◌, ℤ, pos, true, false, not, ◌==◌,
  ◌&&◌, List, [], ◌∷◌, arith, if◌then◌else◌,
}
use driver_module_test.LibMem.{
  Call, Os, Proc, Outcome, returned, faulted, number, differs, is_size, map_failed, plus,
  read_dram_raw, write_dram_raw,
}
use driver_module_test.LibMem.Number.{number-cong}
use driver_module_test.LibMem.Map.{
  is_in_page, all_of, all_of-none, all_of-every, read_dram_map_raw, write_dram_map_raw,
}

-- The descriptors that were opened and not closed.
abbrev pub left_open : List Call → ℕ
left_open [] = 0
left_open (Call.open_mem (pos fd) ∷ c) = suc (left_open c)
left_open (Call.close (pos fd) ∷ c) = left_open c - 1
left_open (_ ∷ c) = left_open c

module _ (os : Os) (dram_addr size : ℕ) (s : Proc) where
  abbrev pub opens : ℤ → ℕ
  opens (pos fd) = 1
  opens _ = 0

  abbrev pub fd : ℤ
  fd = os.open_mem s.tick

  abbrev pub read_answer : ℤ × (ℕ → ℕ)
  read_answer = os.read (suc (suc s.tick)) fd size

  abbrev pub Delivers : Outcome → Type 0
  Delivers (returned ret t) =
      if is_size size && not (differs read_answer.0 size)
      then (ret ≡ 0)
        × (t.value ≡ number size read_answer.1 0)
        × (left_open t.calls ≡ left_open s.calls)
      else (ret ≡ 1) × (left_open t.calls ≡ left_open s.calls + opens fd)
  Delivers (faulted t) = ⊥

  -- read_dram_raw returns 0 exactly if the size is 1, 2 or 4 and read gave as many bytes; then
  -- *value is the number in these, the low byte first, and as many descriptors are open as
  -- before. Otherwise it returns 1, and the descriptor that it opened stays open.
  pub read_dram_raw-Delivers : Delivers (read_dram_raw os dram_addr size s)
  unfolding read_dram_raw
  read_dram_raw-Delivers = ground arith

  -- A size that is no size of a number is refused, but `tmp` has then been overrun by what was read.
  abbrev pub Overruns : (n : ℕ) → Outcome → Type 0
  Overruns n (returned ret t) =
      (ret ≡ 1) × ((i : ℕ) → 4 ≤ i → i < n → t.memory (s.tmp_at + i) ≡ read_answer.1 i)
  Overruns n (faulted t) = ⊥

  pub read_dram_raw-Overruns :
      (n : ℕ) → read_answer.0 ≡ pos n → 4 < size → Overruns n (read_dram_raw os dram_addr size s)
  unfolding read_dram_raw
  read_dram_raw-Overruns n e big = ground (arith, e, big)

  abbrev pub write_answer : (value : ℕ) → ℤ
  write_answer value = os.write (suc (suc s.tick)) fd (value % 256 ^ size) size

  abbrev pub Stores : (value : ℕ) → Outcome → Type 0
  Stores value (returned ret t) =
      if is_size size && not (differs (write_answer value) size)
      then (ret ≡ 0) × (left_open t.calls ≡ left_open s.calls)
      else (ret ≡ 1) × (left_open t.calls ≡ left_open s.calls + opens fd)
  Stores value (faulted t) = ⊥

  -- write_dram_raw returns 0 exactly if the size is 1, 2 or 4 and write took as many bytes, and
  -- then as many descriptors are open as before. Otherwise it returns 1, and the descriptor that
  -- it opened stays open.
  pub write_dram_raw-Stores : (value : ℕ) → Stores value (write_dram_raw os dram_addr value size s)
  unfolding write_dram_raw
  write_dram_raw-Stores value = ground arith

  abbrev pub page : ℕ
  page = os.mmap (suc s.tick) fd (dram_addr / os.page_size * os.page_size)

  -- The byte of the process's memory at `a` once the page is mapped.
  abbrev shown : ℕ → ℕ
  shown a =
      if is_in_page os page a
      then os.mapped (suc s.tick) fd (dram_addr / os.page_size * os.page_size) (a - page)
      else s.memory a

  -- Nothing is mapped at the last address and in the first page.
  abbrev pub IsGuarded : Type 0
  IsGuarded =
      (a : ℕ)
      → (a ≡ map_failed) ⊎ (a < os.page_size)
      → (s.is_readable a ≡ false) × (s.is_writable a ≡ false)

  abbrev pub Peeks : (device : ℕ → ℕ) → Outcome → Type 0
  Peeks device (returned ret t) =
      (left_open t.calls ≡ left_open s.calls + opens fd)
      × (if is_size size && not (page == 0)
          then (page ≢ map_failed) × (ret ≡ 0) × (t.value ≡ number size device dram_addr)
          else (ret ≡ 1) × (t.value ≡ s.value))
  Peeks device (faulted t) = (is_size size ≡ true) × (page ≡ map_failed)

  positive : is_size size ≡ true → 0 < size
  positive e = ground (arith, e)

  plus-guarded :
      0 < os.page_size
      → (plus map_failed (dram_addr % os.page_size) ≡ map_failed)
        ⊎ (plus map_failed (dram_addr % os.page_size) < os.page_size)
  plus-guarded room = ground (arith, mod-lt dram_addr room)

  module _ (device : ℕ → ℕ) (guarded : IsGuarded) (room : 0 < os.page_size)
      (inside : page ≢ map_failed → page + os.page_size ≤ 2 ^ 64)
      (shows : (t : ℕ) (fd : ℤ) (offset i : ℕ) → os.mapped t fd offset i ≡ device (offset + i))
      (fits : dram_addr % os.page_size + size ≤ os.page_size) where
    shown-number :
        page ≢ map_failed
        → number size shown (plus page (dram_addr % os.page_size)) ≡ number size device dram_addr
    shown-number ne =
        let at : plus page (dram_addr % os.page_size) ≡ page + dram_addr % os.page_size =
          mod-eq_of_lt (omega (arith, inside ne, mod-lt dram_addr room)) in
        rw at (
          number-cong size shown device (page + dram_addr % os.page_size) dram_addr (λ i lt.
            ground (
              arith,
              fits,
              lt,
              shows (suc s.tick) fd (dram_addr / os.page_size * os.page_size)
                  (dram_addr % os.page_size + i),
              div-add-mod' dram_addr os.page_size,
            )))

    unreadable :
        0 < size → all_of s.is_readable (plus map_failed (dram_addr % os.page_size)) size ≡ false
    unreadable lt =
        all_of-none s.is_readable (plus map_failed (dram_addr % os.page_size)) size lt
          (guarded _ (plus-guarded room)).0

    readable :
        page ≢ map_failed
        → all_of
            (λ a. if is_in_page os page a then true else s.is_readable a)
            (plus page (dram_addr % os.page_size))
            size
          ≡ true
    readable ne =
        all_of-every _ (plus page (dram_addr % os.page_size)) size
          (λ i lt. ground (arith, lt, fits, inside ne, mod-lt dram_addr room))

    -- Let pages not be empty, nothing of the process be mapped in the first page or at the last
    -- address, and a page that mmap gives lie within the 64-bit addresses. Where a mapping
    -- shows the device's bytes and the access stays within its page: if mmap gave no NULL and
    -- the size is 1, 2 or 4, read_dram_map_raw returns 0 with *value the device's number at the
    -- address, the low byte first, or, where mmap gave MAP_FAILED, faults; otherwise it returns
    -- 1 and leaves *value. Wherever it returns, the descriptor that it opened stays open.
    pub read_dram_map_raw-Peeks : Peeks device (read_dram_map_raw os dram_addr size s)
    unfolding read_dram_map_raw
    read_dram_map_raw-Peeks = ground (arith, shown-number, unreadable, readable, positive)

  abbrev pub Faults : Outcome → Type 0
  Faults (returned ret t) = (ret ≡ 1) × ((page ≡ 0) ⊎ (is_size size ≡ false))
  Faults (faulted t) = (page ≢ 0) × (is_size size ≡ true)

  module _ (guarded : IsGuarded) (room : 0 < os.page_size)
      (inside : page ≢ map_failed → page + os.page_size ≤ 2 ^ 64) where
    unwritable_failed :
        0 < size → all_of s.is_writable (plus map_failed (dram_addr % os.page_size)) size ≡ false
    unwritable_failed lt =
        all_of-none s.is_writable (plus map_failed (dram_addr % os.page_size)) size lt
          (guarded _ (plus-guarded room)).1

    unwritable_page :
        page ≢ map_failed
        → 0 < size
        → all_of
            (λ a. if is_in_page os page a then false else s.is_writable a)
            (plus page (dram_addr % os.page_size))
            size
          ≡ false
    unwritable_page ne lt =
        all_of-none _ (plus page (dram_addr % os.page_size)) size lt
          (ground (arith, inside ne, mod-lt dram_addr room))

    -- Let pages not be empty, nothing of the process be mapped in the first page or at the last
    -- address, and a page that mmap gives lie within the 64-bit addresses. Then
    -- write_dram_map_raw never returns 0: it returns 1 if mmap gave NULL or the size is not 1,
    -- 2 or 4, and otherwise it faults at its store, since the page is mapped for reading only,
    -- or not at all.
    pub write_dram_map_raw-Faults :
        (value : ℕ) → Faults (write_dram_map_raw os dram_addr value size s)
    unfolding write_dram_map_raw
    write_dram_map_raw-Faults value = ground (arith, unwritable_failed, unwritable_page, positive)
