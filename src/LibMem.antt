-- ===== src/LibMem.antt =====
-- mem_map/test_mem_map/libmem.c: access to the device of mem_map from a program, by `read` and
-- `write` and by a mapping. Numbers are stored with the low byte first.
pub mod Map
pub mod Transfer
pub mod Number
pub mod Device
pub mod Main
use driver_module_test.Prelude.{
  ℕ, zero, suc, ◌+◌, ◌*◌, ◌/◌, ◌%◌, ◌^◌, ◌-◌, true, false, ℤ, pos, negsuc, Bool, List, ◌∷◌, not,
  ◌==◌, ltb, leb, ◌&&◌, ◌||◌, if◌then◌else◌,
}

-- The calls of the C library, each with its arguments and, last, its answer.
pub data Call : Type 0 where
  open_mem : (fd : ℤ) → Call
  close : (fd : ℤ) → Call
  lseek : (fd : ℤ) (offset : ℕ) → Call
  read : (fd : ℤ) (size : ℕ) → ℤ → Call
  write : (fd : ℤ) (bytes size : ℕ) → ℤ → Call
  mmap : (fd : ℤ) (offset : ℕ) (addr : ℕ) → Call
  munmap : (addr : ℕ) → Call

-- The answers of the system to a call that is made when `tick` calls have gone before. `read` has
-- the bytes that it leaves in a buffer of zeros. `mmap` answers with the address, or MAP_FAILED.
pub record Os : Type 0 where
  pub page_size : ℕ
  pub open_mem : (tick : ℕ) → ℤ
  pub read : (tick : ℕ) (fd : ℤ) (size : ℕ) → ℤ × (ℕ → ℕ)
  pub write : (tick : ℕ) (fd : ℤ) (bytes size : ℕ) → ℤ
  pub mmap : (tick : ℕ) (fd : ℤ) (offset : ℕ) → ℕ
  pub mapped : (tick : ℕ) (fd : ℤ) (offset i : ℕ) → ℕ  -- the bytes that a mapping shows

-- `*value`, the memory of the process and which of it can be read and written, the calls made so
-- far, and where the local variable `tmp` of four bytes is. Another access faults.
pub record Proc : Type 0 where
  pub value : ℕ
  pub tick : ℕ
  pub calls : List Call
  pub memory : ℕ → ℕ
  pub is_readable : ℕ → Bool
  pub is_writable : ℕ → Bool
  pub tmp_at : ℕ

-- (void *)-1
abbrev pub map_failed : ℕ
map_failed = 2 ^ 64 - 1

-- `p + n` for a pointer.
abbrev pub plus : (p n : ℕ) → ℕ
plus p n = (p + n) % 2 ^ 64

pub data Outcome : Type 0 where
  returned : (ret : ℕ) → Proc → Outcome
  faulted : Proc → Outcome

abbrev pub call : Call → Proc → Proc
call c s = record s { tick = suc s.tick; calls = c ∷ s.calls }

-- The number in `n` bytes from `a` on.
abbrev pub number : ℕ → (ℕ → ℕ) → ℕ → ℕ
number zero f a = 0
number (suc n) f a = f a + 256 * number n f (suc a)

-- ret != size, for an `int` and a `uint32_t` that is 1, 2 or 4
abbrev pub differs : ℤ → ℕ → Bool
differs (pos n) size = not (n == size)
differs (negsuc n) size = true

-- A byte that a call which gave `n` bytes has stored.
abbrev pub is_below : ℕ → ℤ → Bool
is_below i (pos n) = ltb i n
is_below i (negsuc n) = false

abbrev pub is_size : ℕ → Bool
is_size size = size == 4 || (size == 2 || size == 1)

module _ (os : Os) where
  -- A failure is only logged, and the result is then -1.
  abbrev pub get_mem_fd : Proc → ℤ × Proc
  get_mem_fd s = (os.open_mem s.tick, call (Call.open_mem (os.open_mem s.tick)) s)

  -- `read` stores to `tmp` as many bytes as it gives, and `tmp` is set to 0 before.
  abbrev pub fill_tmp : ℤ × (ℕ → ℕ) → Proc → Proc
  fill_tmp r s = record s {
    memory = λ a.
        if leb s.tmp_at a && (ltb a (s.tmp_at + 4) || is_below (a - s.tmp_at) r.0)
        then r.1 (a - s.tmp_at)
        else s.memory a;
  }

  -- `*value` gets the first bytes of `tmp`, before the result of `read` is tested.
  unfoldable pub read_dram_raw : (dram_addr size : ℕ) → Proc → Outcome
  read_dram_raw dram_addr size s =
      let opened = get_mem_fd s in
      let fd = opened.0 in
      let t = call (Call.lseek fd dram_addr) opened.1 in
      let r = os.read t.tick fd size in
      let u = fill_tmp r (call (Call.read fd size r.0) t) in
      if not (is_size size)
      then returned 1 u
      else (let v = record u { value = number size r.1 0 } in
          if differs r.0 size then returned 1 v else returned 0 (call (Call.close fd) v))

  -- `tmp` is the value in the type of that size.
  unfoldable pub write_dram_raw : (dram_addr value size : ℕ) → Proc → Outcome
  write_dram_raw dram_addr value size s =
      let opened = get_mem_fd s in
      let fd = opened.0 in
      let t = call (Call.lseek fd dram_addr) opened.1 in
      if not (is_size size)
      then returned 1 t
      else (let tmp = value % 256 ^ size in
          let r = os.write t.tick fd tmp size in
          let u = call (Call.write fd tmp size r) t in
          if differs r size then returned 1 u else returned 0 (call (Call.close fd) u))
