-- ===== src/Examples/LibMem.antt =====
-- The theorems on libmem.c, at one access of four bytes.
use driver_module_test.Prelude.{
  ℕ, ◌+◌, ◌%◌, ◌^◌, ◌<◌, ◌≡◌, ◌⊎◌, Bool, false, leb, ltb, ◌&&◌, pos, [], refl, arith,
}
use driver_module_test.LibMem.{Os, Proc, map_failed}
use driver_module_test.LibMem.Map.{write_dram_map_raw}
use driver_module_test.LibMem.Transfer.{IsGuarded, Faults, write_dram_map_raw-Faults}

abbrev granting : Os
granting = record {
  page_size = 4096;
  open_mem = λ t. pos 3;
  read = λ t fd size. (pos size, λ i. 7 + i);
  write = λ t fd bytes size. pos size;
  mmap = λ t fd offset. 8192;
  mapped = λ t fd offset i. (offset + i) % 251;
}

-- A process with memory from the second page on, up to half of the addresses.
abbrev is_user : ℕ → Bool
is_user a = leb 4096 a && ltb a (2 ^ 63)

abbrev pub idle : Proc
idle = record {
  value = 0;
  tick = 0;
  calls = [];
  memory = λ a. 0;
  is_readable = is_user;
  is_writable = is_user;
  tmp_at = 65536;
}

unmapped : (a : ℕ) → (a ≡ map_failed) ⊎ (a < 4096) → is_user a ≡ false
unmapped a h = ground (arith, h)

pub idle-IsGuarded :
    (os : Os) (dram_addr size : ℕ) → os.page_size ≡ 4096 → IsGuarded os dram_addr size idle
idle-IsGuarded os dram_addr size e a h =
    let out : (a ≡ map_failed) ⊎ (a < 4096) = ground (arith, e, h) in
    (unmapped a out, unmapped a out)

write_dram_map_raw-Faults_example :
    Faults granting 4100 4 idle (write_dram_map_raw granting 4100 258 4 idle)
write_dram_map_raw-Faults_example =
    write_dram_map_raw-Faults granting 4100 4 idle (idle-IsGuarded granting 4100 4 refl)
      (omega arith) (λ ne. omega arith) 258
