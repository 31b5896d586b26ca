-- ===== src/LibMem/Device.antt =====
-- libmem.c over the driver of mem_map: the program's `lseek`, `read` and `write` run the handlers.
pub mod RoundTrip
pub mod Agree
pub mod Mapping
use native.Mathlib.Nat.{mod-mod}
use driver_module_test.Prelude.{
  ◌≢◌, ==_iff, ◌==◌, Bool-cases, ℕ, suc, ◌+◌, ◌-◌, ◌/◌, ◌%◌, ◌^◌, ◌<◌, ◌≤◌, ◌≡◌, ◌⊎◌, inl, inr, ℤ,
  pos, negsuc, false, refl, ap, ◌∙◌, arith,
}
use driver_module_test.Prelude.Blit.{blit}
use driver_module_test.Kernel.{Kernel, St, Run, ok, oops, out_of_fuel, final, ◌>>◌}
use driver_module_test.Kernel.After.{After, After-all, After-mono}
use driver_module_test.MemMap.{Globals, Serves, phys_mod}
use driver_module_test.MemMap.Read.{mem_map_read}
use driver_module_test.MemMap.Read.Content.{Reads, mem_map_read-Reads}
use driver_module_test.MemMap.Write.{mem_map_write}
use driver_module_test.MemMap.Write.Content.{Writes, mem_map_write-Writes}
use driver_module_test.MemMap.Seek.{mem_map_lseek, mem_map_lseek-set, word}
use driver_module_test.LibMem.{
  Os, Proc, Outcome, returned, faulted, number, is_size, read_dram_raw, write_dram_raw,
}
use driver_module_test.LibMem.Number.{number-cong, number-bytes}
use driver_module_test.LibMem.Transfer.{
  left_open, Delivers, Stores, read_dram_raw-Delivers, write_dram_raw-Stores,
}

-- What the program gets of a handler's result.
abbrev pub result : Run Globals ℤ → ℤ
result (ok n t) = n
result _ = negsuc 13

module _ (k : Kernel) (buf dram_addr size : ℕ) (d : St Globals) where
  abbrev pub seek_read : Run Globals ℤ
  seek_read = (do mem_map_lseek dram_addr 0; mem_map_read k buf size) d

  abbrev pub seek_write : Run Globals ℤ
  seek_write = (do mem_map_lseek dram_addr 0; mem_map_write k buf size) d

  abbrev at_place : St Globals
  at_place = record d { globals = record d.globals { ppos = dram_addr } }

  -- The bytes that arrived at `buf`, or an error.
  abbrev Arrived : ℤ → St Globals → Type 0
  Arrived (pos n) t =
      (n ≡ size) × ((i : ℕ) → i < size → t.user (buf + i) ≡ d.globals.phys (dram_addr + i))
  Arrived (negsuc e) t = (e ≡ 11) ⊎ (e ≡ 13)

  module _ (laws : Serves k) (low : dram_addr < word - 4095)
      (fits : dram_addr + size ≤ phys_mod k) where
    Reads-Arrived :
        (n : ℤ) (t : St Globals) → ((a : ℕ) → Reads k laws buf size a at_place n t) → Arrived n t
    Reads-Arrived (pos n) t h = ((h 0).0, λ i lt. ground (arith, h (buf + i), lt))
    Reads-Arrived (negsuc e) t h = (h 0).0

    seek_read-Arrived : After Arrived (λ _. ⊥) seek_read
    seek_read-Arrived =
        let run = mem_map_read k buf size at_place in
        rw (mem_map_lseek-set dram_addr d low) (
          After-mono _ _ (λ _. ⊥) run
            (After-all (λ a n t. Reads k laws buf size a at_place n t) (λ _. ⊥) run 0
              (λ a. mem_map_read-Reads k laws buf size a at_place fits))
            Reads-Arrived)

    seek_read_result : (r : Run Globals ℤ) → After Arrived (λ _. ⊥) r → Arrived (result r) (final r)
    seek_read_result (ok n t) h = h
    seek_read_result (oops t) h = absurd h
    seek_read_result (out_of_fuel t) h = absurd h

    module _ (os : Os) (s : Proc) where
      -- The number at the address, and no descriptor more than before; or 1, where the size is
      -- refused or the handler failed.
      abbrev pub Peeks : Outcome → Type 0
      Peeks (returned ret t) =
          ((ret ≡ 0)
            × (t.value ≡ number size d.globals.phys dram_addr)
            × (left_open t.calls ≡ left_open s.calls))
          ⊎ ((ret ≡ 1)
              × ((is_size size ≡ false)
                  ⊎ (result seek_read ≡ negsuc 11)
                  ⊎ (result seek_read ≡ negsuc 13)))
      Peeks (faulted t) = ⊥

      Peeks-Delivers :
          (o : Outcome) (n : ℤ) (f : ℕ → ℕ)
          → os.read (suc (suc s.tick)) (os.open_mem s.tick) size ≡ (n, f)
          → n ≡ result seek_read
          → ((i : ℕ) → f i ≡ (final seek_read).user (buf + i))
          → Arrived n (final seek_read)
          → Delivers os dram_addr size s o
          → Peeks o
      Peeks-Delivers (returned ret t) (pos n) f e r g (all, same) h =
          let value : number size f 0 ≡ number size d.globals.phys dram_addr =
            number-cong size f d.globals.phys 0 dram_addr
              (λ i lt. ap f (omega arith) ∙ g i ∙ same i lt) in
          ground (arith, value, rw e at h)
      Peeks-Delivers (returned ret t) (negsuc n) f e r g a h = ground (arith, rw e at h)
      Peeks-Delivers (faulted t) n f e r g a h = h

      -- Let the read of libmem.c run mem_map_lseek and mem_map_read, on a kernel that serves
      -- mappings and copies, at an address below the error patterns with the range within
      -- physical memory. Then read_dram_raw either returns 0, with *value the number in
      -- physical memory at the address, the low byte first, and as many descriptors open as
      -- before; or it returns 1, and the size is not 1, 2 or 4 or the driver answered -ENOMEM
      -- or -EFAULT.
      pub read_dram_raw-Peeks :
          os.read (suc (suc s.tick)) (os.open_mem s.tick) size
            ≡ (result seek_read, λ i. (final seek_read).user (buf + i))
          → Peeks (read_dram_raw os dram_addr size s)
      read_dram_raw-Peeks e =
          Peeks-Delivers (read_dram_raw os dram_addr size s) (result seek_read)
            (λ i. (final seek_read).user (buf + i)) e refl (λ i. refl)
            (seek_read_result seek_read seek_read-Arrived)
            (read_dram_raw-Delivers os dram_addr size s)

      -- The bytes of physical memory from the fifth on stand behind the 4-byte variable `tmp`.
      abbrev pub Spills : Outcome → Type 0
      Spills (returned ret t) =
          (ret ≡ 1)
          × ((i : ℕ) → 4 ≤ i → i < size → t.memory (s.tmp_at + i) ≡ d.globals.phys (dram_addr + i))
      Spills (faulted t) = ⊥

    -- The bytes that were stored, or an error.
    abbrev Placed : ℤ → St Globals → Type 0
    Placed (pos n) t =
        (n ≤ size)
        × ((a : ℕ)
            → (t.globals.phys a ≡ blit d.globals.phys d.user dram_addr buf n a)
              ⊎ ((dram_addr + n ≤ a) × (a < dram_addr + size) × (t.globals.phys a ≡ 0)))
    Placed (negsuc e) t = (e ≡ 13) ⊎ (e ≡ 26)

    Writes-Placed :
        (n : ℤ) (t : St Globals) → ((a : ℕ) → Writes k laws a buf size at_place n t) → Placed n t
    Writes-Placed (pos n) t h = ((h 0).0, λ a. (h a).4)
    Writes-Placed (negsuc e) t h = ground (arith, h 0)

    seek_write-Placed : After Placed (λ _. ⊥) seek_write
    seek_write-Placed =
        let run = mem_map_write k buf size at_place in
        rw (mem_map_lseek-set dram_addr d low) (
          After-mono _ _ (λ _. ⊥) run
            (After-all (λ a n t. Writes k laws a buf size at_place n t) (λ _. ⊥) run 0
              (λ a. mem_map_write-Writes k laws a buf size at_place fits))
            Writes-Placed)

    seek_write_result : (r : Run Globals ℤ) → After Placed (λ _. ⊥) r → Placed (result r) (final r)
    seek_write_result (ok n t) h = h
    seek_write_result (oops t) h = absurd h
    seek_write_result (out_of_fuel t) h = absurd h

    module _ (os : Os) (value : ℕ) (s : Proc) where
      -- The device's bytes afterwards.
      abbrev pub poked : ℕ → ℕ
      poked = (final seek_write).globals.phys

      -- The number is at the address, the other bytes are as before, and no descriptor is open
      -- more than before; or 1, where the size is refused or the handler stored less.
      abbrev pub Pokes : Outcome → Type 0
      Pokes (returned ret t) =
          ((ret ≡ 0)
            × (number size poked dram_addr ≡ value % 256 ^ size)
            × ((a : ℕ) → (a < dram_addr) ⊎ (dram_addr + size ≤ a) → poked a ≡ d.globals.phys a)
            × (left_open t.calls ≡ left_open s.calls))
          ⊎ ((ret ≡ 1) × ((is_size size ≡ false) ⊎ (result seek_write ≢ pos size)))
      Pokes (faulted t) = ⊥

      stored_number :
          ((i : ℕ) → i < size → d.user (buf + i) ≡ value % 256 ^ size / 256 ^ i % 256)
          → ((a : ℕ) → poked a ≡ blit d.globals.phys d.user dram_addr buf size a)
          → number size poked dram_addr ≡ value % 256 ^ size
      stored_number bytes at =
          number-bytes size (value % 256 ^ size) dram_addr poked
            (λ i lt. at (dram_addr + i) ∙ ground (arith, lt) ∙ bytes i lt)
          ∙ mod-mod value (256 ^ size)

      Pokes-Stores :
          (o : Outcome) (n : ℤ)
          → os.write (suc (suc s.tick)) (os.open_mem s.tick) (value % 256 ^ size) size ≡ n
          → result seek_write ≡ n
          → ((i : ℕ) → i < size → d.user (buf + i) ≡ value % 256 ^ size / 256 ^ i % 256)
          → Placed n (final seek_write)
          → Stores os dram_addr size s value o
          → Pokes o
      Pokes-Stores (returned ret t) (pos n) e r bytes (le, at) h = elim (Bool-cases (n == size)) [
        | inl same ↦
            let whole : (a : ℕ) → poked a ≡ blit d.globals.phys d.user dram_addr buf size a =
              λ a. ground (arith, at a, (==_iff n size).0 same) in
            elim (Bool-cases (is_size size)) [
              | inl good ↦
                  let (zero_ret, closed) : (ret ≡ 0) × (left_open t.calls ≡ left_open s.calls) =
                    ground (arith, rw e at h, good, same) in
                  inl (
                    zero_ret,
                    stored_number bytes whole,
                    λ a o. whole a ∙ ground (arith, o),
                    closed,
                  )
              | inr bad ↦ inr (ground (arith, h, bad), inl bad)
            ]
        | inr less ↦ inr (ground (arith, rw e at h, less), inr (λ q. ground (arith, r, q, less)))
      ]
      Pokes-Stores (returned ret t) (negsuc n) e r bytes a h = ground (arith, rw e at h, r)
      Pokes-Stores (faulted t) n e r bytes a h = h

      -- Let the write of libmem.c run mem_map_lseek and mem_map_write, on a kernel that
      -- serves mappings and copies, with the value's bytes at the buffer, at an address below
      -- the error patterns with the range within physical memory. Then write_dram_raw either
      -- returns 0, with the value modulo 256 to the size in physical memory at the address,
      -- every byte outside the range as before and as many descriptors open as before; or it
      -- returns 1, and the size is not 1, 2 or 4 or the driver did not store all bytes.
      pub write_dram_raw-Pokes :
          os.write (suc (suc s.tick)) (os.open_mem s.tick) (value % 256 ^ size) size
            ≡ result seek_write
          → ((i : ℕ) → i < size → d.user (buf + i) ≡ value % 256 ^ size / 256 ^ i % 256)
          → Pokes (write_dram_raw os dram_addr value size s)
      write_dram_raw-Pokes e bytes =
          Pokes-Stores (write_dram_raw os dram_addr value size s) (result seek_write) e refl bytes
            (seek_write_result seek_write seek_write-Placed)
            (write_dram_raw-Stores os dram_addr size s value)
