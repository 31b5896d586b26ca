-- ===== src/Examples/File.antt =====
-- The theorems on mem_map as a file, and on libmem.c above it, at a few calls near the end of a
-- page.
use driver_module_test.Prelude.{
  ℕ, zero, suc, ◌<◌, ◌+◌, ◌%◌, ◌/◌, ◌^◌, ◌∷◌, [], true, pos, ◌≡◌, refl, arith, update,
}
use driver_module_test.Kernel.{St, final}
use driver_module_test.Kernel.After.{After}
use driver_module_test.MemMap.{
  Globals, phys_mod, size_inside_page, my_xlate_dev_mem_ptr, my_unxlate_dev_mem_ptr,
}
use driver_module_test.MemMap.Read
use driver_module_test.MemMap.Write
use driver_module_test.MemMap.Read.{mem_map_read, read_loop, read_piece, failed}
use driver_module_test.MemMap.Write.{mem_map_write, write_loop, write_piece, stop}
use driver_module_test.MemMap.Seek.{mem_map_lseek, seek_set}
use driver_module_test.MemMap.File.{Op, Runs, run_ops, view}
use driver_module_test.MemMap.File.Refines.{Balanced, run_ops-Runs}
use driver_module_test.LibMem.{Os, Outcome, returned, read_dram_raw, write_dram_raw, Proc, faulted}
use driver_module_test.LibMem.Device.{
  result, seek_read, seek_write, Peeks, Pokes, read_dram_raw-Peeks, write_dram_raw-Pokes,
}
use driver_module_test.Examples.LibMem.{idle, idle-IsGuarded}
use driver_module_test.LibMem.Map.{read_dram_map_raw}
use driver_module_test.LibMem.Device.Mapping.{address, map_run, Shows, read_dram_map_raw-Shows}
use driver_module_test.LibMem.Device.Agree.{read_dram_raw-read_dram_map_raw}
use driver_module_test.LibMem.Device.RoundTrip.{read-write_dram_raw}
use driver_module_test.Examples.{obliging, obliging-Serves}
use driver_module_test.Examples.MemMap.{open_file}

-- The process where a call returned or faulted.
abbrev left_by : Outcome → Proc
left_by (returned ret t) = t
left_by (faulted t) = t

run_ops-Runs_example :
    After
      (λ ns t.
        Runs
          (phys_mod obliging)
          (Op.write 512 100 ∷ Op.seek 4090 0 ∷ Op.read 2048 100 ∷ [])
          (view open_file)
          ns
          (view t)
        × Balanced obliging obliging-Serves open_file t)
      (λ _. ⊥)
      (run_ops obliging (Op.write 512 100 ∷ Op.seek 4090 0 ∷ Op.read 2048 100 ∷ []) open_file)
run_ops-Runs_example =
    run_ops-Runs obliging obliging-Serves
      (Op.write 512 100 ∷ Op.seek 4090 0 ∷ Op.read 2048 100 ∷ []) open_file

-- The two bytes of 258 at 512.
abbrev with_number : St Globals
with_number = record open_file { user = update (update (λ a. 0) 512 2) 513 1 }

-- The system above the driver in state `d`, for two bytes at 4095.
abbrev above : St Globals → Os
above d = record {
  page_size = 4096;
  open_mem = λ t. pos 3;
  read = λ t fd size. (
    result (seek_read obliging 512 4095 2 d),
    λ i. (final (seek_read obliging 512 4095 2 d)).user (512 + i),
  );
  write = λ t fd bytes size. result (seek_write obliging 512 4095 2 d);
  mmap = λ t fd offset. 8192;
  mapped = λ t fd offset i. d.globals.phys (offset + i);
}

read_dram_raw-Peeks_example :
    Peeks obliging 512 4095 2 open_file obliging-Serves
      (omega arith)
      (omega arith)
      (above open_file)
      idle
      (read_dram_raw (above open_file) 4095 2 idle)
read_dram_raw-Peeks_example =
    read_dram_raw-Peeks obliging 512 4095 2 open_file obliging-Serves (omega arith) (omega arith)
      (above open_file) idle refl

-- A read of eight bytes.
abbrev wide : Os
wide = record (above open_file) {
  read = λ t fd size. (
    result (seek_read obliging 512 4095 8 open_file),
    λ i. (final (seek_read obliging 512 4095 8 open_file)).user (512 + i),
  );
}

bytes_of_number : (i : ℕ) → i < 2 → with_number.user (512 + i) ≡ 258 % 256 ^ 2 / 256 ^ i % 256
bytes_of_number zero lt = refl
bytes_of_number (suc zero) lt = refl
bytes_of_number (suc (suc i)) lt = omega (arith, lt)

write_dram_raw-Pokes_example :
    Pokes obliging 512 4095 2 with_number obliging-Serves
      (omega arith)
      (omega arith)
      (above with_number)
      258
      idle
      (write_dram_raw (above with_number) 4095 258 2 idle)
write_dram_raw-Pokes_example =
    write_dram_raw-Pokes obliging 512 4095 2 with_number obliging-Serves (omega arith) (omega arith)
      (above with_number) 258 idle refl bytes_of_number

abbrev after_write : St Globals
after_write = final (seek_write obliging 512 4095 2 with_number)

abbrev writing : Outcome
writing = write_dram_raw (above with_number) 4095 258 2 idle

abbrev reading : Outcome
reading = read_dram_raw (above after_write) 4095 2 idle

writing-returned : writing ≡ returned 0 (left_by writing)
unfolding write_dram_raw mem_map_lseek seek_set mem_map_write write_loop write_piece stop
    Write.finish size_inside_page my_xlate_dev_mem_ptr my_unxlate_dev_mem_ptr
writing-returned = refl

reading-returned : reading ≡ returned 0 (left_by reading)
unfolding read_dram_raw mem_map_lseek seek_set mem_map_read mem_map_write write_loop write_piece
    stop Write.finish read_loop read_piece failed Read.finish size_inside_page my_xlate_dev_mem_ptr
    my_unxlate_dev_mem_ptr
reading-returned = refl

read-write_dram_raw_example : (left_by reading).value ≡ 258 % 256 ^ 2
read-write_dram_raw_example =
    read-write_dram_raw obliging obliging-Serves 512 4095 2 258 (omega arith) (omega arith)
      with_number after_write (above with_number) (above after_write) idle idle (left_by writing)
      (left_by reading) refl bytes_of_number refl refl writing-returned reading-returned

-- Two bytes at 2048, inside a page.
abbrev beside : Os
beside = record (above open_file) {
  read = λ t fd size. (
    result (seek_read obliging 512 2048 2 open_file),
    λ i. (final (seek_read obliging 512 2048 2 open_file)).user (512 + i),
  );
}

abbrev by_read : Outcome
by_read = read_dram_raw beside 2048 2 idle

abbrev by_map : Outcome
by_map = read_dram_map_raw beside 2048 2 idle

by_read-returned : by_read ≡ returned 0 (left_by by_read)
unfolding read_dram_raw mem_map_lseek seek_set mem_map_read read_loop read_piece failed Read.finish
    size_inside_page my_xlate_dev_mem_ptr my_unxlate_dev_mem_ptr
by_read-returned = refl

by_map-returned : by_map ≡ returned 0 (left_by by_map)
unfolding read_dram_map_raw
by_map-returned = refl

read_dram_raw-read_dram_map_raw_example : (left_by by_read).value ≡ (left_by by_map).value
read_dram_raw-read_dram_map_raw_example =
    read_dram_raw-read_dram_map_raw obliging obliging-Serves 512 2048 2 open_file beside
      (omega arith) (omega arith) idle idle (left_by by_read) (left_by by_map) refl
      (λ tick fd offset i. refl) (idle-IsGuarded beside 2048 2 refl) (omega arith)
      (λ ne. omega arith) (omega arith) by_read-returned by_map-returned

-- Where the program's `mmap` runs the driver's, and gets a page at 8192.
abbrev mapping : Os
mapping = record (above open_file) {
  mmap = λ t fd offset. address (map_run obliging true 2048 8192 0 open_file);
}

read_dram_map_raw-Shows_example :
    Shows obliging true 2048 8192 0 open_file mapping 2 idle (read_dram_map_raw mapping 2048 2 idle)
read_dram_map_raw-Shows_example =
    read_dram_map_raw-Shows obliging true 2048 8192 0 open_file 2 mapping idle refl refl
      (λ tick fd offset i. refl) (omega arith) (omega arith) (omega arith)
      (idle-IsGuarded mapping 2048 2 refl) (omega arith)
