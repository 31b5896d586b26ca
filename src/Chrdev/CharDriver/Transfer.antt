-- ===== src/Chrdev/CharDriver/Transfer.antt =====
-- `hello_read` and `hello_write`, byte by byte between the caller's memory and the first buffer.
use driver_module_test.Prelude.{
  ℕ, zero, suc, ◌+◌, ◌*◌, ◌<◌, ◌≤◌, ℤ, pos, ◌≡◌, ◌≢◌, ◌⊎◌, sym, ap, ◌∙◌, arith, update, fun_ext,
  ◌-◌, leb, ltb, ◌&&◌, if◌then◌else◌,
}
use driver_module_test.Prelude.Blit.{blit, blit-suc, blit-zero, blit-start}
use driver_module_test.Kernel.{Kernel, St, ok, M, pure, and_then, final, get, deref, ◌>>=◌, ◌>>◌}
use driver_module_test.Kernel.Loops.{for_range}
use driver_module_test.Chrdev.{Globals, reg_dev_size}

-- user[i] = my_devices->data[i]
read_byte : (user : ℕ) → ℕ → M Globals (Unit {0})
read_byte user i = do
  g ← get
  deref g.my_devices
  deref (g.data_of 0)
  deref user
  λ s. ok tt (record s { user = update s.user (user + i) (s.memory (g.data_of 0 + i)) })

-- my_devices->data[i] = user[i]
write_byte : (user : ℕ) → ℕ → M Globals (Unit {0})
write_byte user i = do
  g ← get
  deref g.my_devices
  deref (g.data_of 0)
  deref user
  λ s. ok tt (record s { memory = update s.memory (g.data_of 0 + i) (s.user (user + i)) })

unfoldable pub hello_read : (user size : ℕ) → M Globals ℤ
unfolding read_byte
hello_read user size = do for_range size 0 (read_byte user); pure (pos 0)

unfoldable pub hello_write : (user size : ℕ) → M Globals ℤ
unfolding write_byte
hello_write user size = do for_range size 0 (write_byte user); pure (pos 0)

-- The module is loaded: the array and the first buffer are there.
pub record IsLoaded (g : Globals) : Type 0 where
  pub array : g.my_devices ≢ 0
  pub buffer : g.data_of 0 ≢ 0

module _ (user : ℕ) (there : user ≢ 0) where
  read_byte_lem :
      (i : ℕ) (s : St Globals)
      → IsLoaded s.globals
      → read_byte user i s
        ≡ ok tt (record s { user = update s.user (user + i) (s.memory (s.globals.data_of 0 + i)) })
  unfolding read_byte
  read_byte_lem i s h = ground arith

  for_range-read_byte :
      (n i : ℕ) (s : St Globals)
      → IsLoaded s.globals
      → for_range n i (read_byte user) s
        ≡ ok tt (record s { user = blit s.user s.memory (user + i) (s.globals.data_of 0 + i) n })
  for_range-read_byte zero i s h =
      ap (λ f. ok tt (record s { user = f }))
        (sym (fun_ext (blit-zero s.user s.memory (user) (s.globals.data_of 0) i)))
  for_range-read_byte (suc n) i s h =
      ap (λ r. and_then r (λ _. for_range n (suc i) (read_byte user))) (read_byte_lem i s h)
      ∙ for_range-read_byte n (suc i)
          (record s { user = update s.user (user + i) (s.memory (s.globals.data_of 0 + i)) }) h
      ∙ ap (λ f. ok tt (record s { user = f }))
          (fun_ext (blit-suc s.user s.memory (user) (s.globals.data_of 0) i n))

  write_byte_lem :
      (i : ℕ) (s : St Globals)
      → IsLoaded s.globals
      → write_byte user i s
        ≡ ok tt
            (record s { memory = update s.memory (s.globals.data_of 0 + i) (s.user (user + i)) })
  unfolding write_byte
  write_byte_lem i s h = ground arith

  for_range-write_byte :
      (n i : ℕ) (s : St Globals)
      → IsLoaded s.globals
      → for_range n i (write_byte user) s
        ≡ ok tt (record s { memory = blit s.memory s.user (s.globals.data_of 0 + i) (user + i) n })
  for_range-write_byte zero i s h =
      ap (λ f. ok tt (record s { memory = f }))
        (sym (fun_ext (blit-zero s.memory s.user (s.globals.data_of 0) (user) i)))
  for_range-write_byte (suc n) i s h =
      ap (λ r. and_then r (λ _. for_range n (suc i) (write_byte user))) (write_byte_lem i s h)
      ∙ for_range-write_byte n (suc i)
          (record s { memory = update s.memory (s.globals.data_of 0 + i) (s.user (user + i)) }) h
      ∙ ap (λ f. ok tt (record s { memory = f }))
          (fun_ext (blit-suc s.memory s.user (s.globals.data_of 0) (user) i n))

  -- While moduleCharDriver is loaded, hello_read to an address that is not NULL returns 0 and
  -- copies `size` bytes from the start of the first buffer to the caller, and changes nothing
  -- else.
  pub hello_read-blit :
      (size : ℕ) (s : St Globals)
      → IsLoaded s.globals
      → hello_read user size s
        ≡ ok (pos 0) (record s { user = blit s.user s.memory user (s.globals.data_of 0) size })
  unfolding hello_read
  hello_read-blit size s h =
      ap (λ r. and_then r (λ _. pure (pos 0)))
        (for_range-read_byte size 0 s h
          ∙ ap (λ f. ok tt (record s { user = f }))
              (fun_ext (blit-start s.user s.memory user (s.globals.data_of 0) size)))

  -- While moduleCharDriver is loaded, hello_write from an address that is not NULL returns 0 and
  -- copies `size` bytes of the caller to the start of the first buffer, and changes nothing else.
  pub hello_write-blit :
      (size : ℕ) (s : St Globals)
      → IsLoaded s.globals
      → hello_write user size s
        ≡ ok (pos 0) (record s { memory = blit s.memory s.user (s.globals.data_of 0) user size })
  unfolding hello_write
  hello_write-blit size s h =
      ap (λ r. and_then r (λ _. pure (pos 0)))
        (for_range-write_byte size 0 s h
          ∙ ap (λ f. ok tt (record s { memory = f }))
              (fun_ext (blit-start s.memory s.user (s.globals.data_of 0) user size)))

-- While moduleCharDriver is loaded, with the array and the first buffer there: a write of `size`
-- bytes from one address that is not NULL and then a read of as many to another return 0, and leave
-- the bytes written at the second address and in the buffer, with everything else unchanged.
pub read-write_lem :
    (from to size : ℕ) (s : St Globals)
    → from ≢ 0
    → to ≢ 0
    → IsLoaded s.globals
    → (do hello_write from size; hello_read to size) s
      ≡ ok (pos 0) (record s {
        memory = blit s.memory s.user (s.globals.data_of 0) from size;
        user = blit s.user s.user to from size;
      })
read-write_lem from to size s hf ht h =
    ap (λ r. and_then r (λ _. hello_read to size)) (hello_write-blit from hf size s h)
    ∙ hello_read-blit to ht size _ h
    ∙ ap
        (λ f.
          ok (pos 0)
            (record s { memory = blit s.memory s.user (s.globals.data_of 0) from size; user = f }))
        (fun_ext (λ a. ground arith))

-- The array of the devices, with the pointer to the buffer in it, is not in the bytes that are stored
-- to: the source reads that pointer again for each byte.
module _ (k : Kernel) (user size : ℕ) (s : St Globals) (there : user ≢ 0)
    (loaded : IsLoaded s.globals)
    (apart : (s.globals.my_devices + 2 * k.sizeof_reg_dev ≤ s.globals.data_of 0)
      ⊎ (s.globals.data_of 0 + size ≤ s.globals.my_devices)) where
  -- While moduleCharDriver is loaded, a hello_write of any size from an address that is not NULL,
  -- where the bytes of that size from the first buffer on do not reach the array of the devices,
  -- leaves a byte of memory outside the first buffer, which has 1024 bytes, as it was, unless the
  -- byte is within the size from the start of the buffer: such a byte, behind the buffer, is
  -- overwritten by the caller's byte at that place.
  pub hello_write-overrun :
      (a : ℕ)
      → (a < s.globals.data_of 0) ⊎ (s.globals.data_of 0 + reg_dev_size ≤ a)
      → (final (hello_write user size s)).memory a ≡ (
          if leb (s.globals.data_of 0) a && ltb a (s.globals.data_of 0 + size)
          then s.user (user + (a - s.globals.data_of 0))
          else s.memory a)
  hello_write-overrun a out = rw (hello_write-blit user there size s loaded) (ground arith)
