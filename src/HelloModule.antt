-- ===== src/HelloModule.antt =====
-- moduleUbuntuTest/moduleTest/moduleTest.c: a device with an input buffer, an output buffer, and a
-- `read` that waits for a `write`. Here are its variables and its file operations.
pub mod Count
pub mod Init
pub mod Transfer
pub mod Wait
use driver_module_test.Prelude.{
  Bool, ℕ, zero, suc, ◌+◌, ◌%◌, ℤ, pos, negsuc, ◌==◌, ltb, update, if◌then◌else◌,
}
use driver_module_test.Prelude.{none, some}
use driver_module_test.DeviceFile.{FileOperations}
use driver_module_test.Kernel.{Event, Kernel, St, ok, M, pure, get, put, deref, ◌>>=◌, ◌>>◌}
use driver_module_test.Kernel.Calls.{void}
use driver_module_test.Kernel.Loops.{for_range}

-- `my_dev` is the pointer; the other variables are the fields behind it, and `cdev_dev` is the
-- number in its `my_cdev`.
pub record MyDev : Type 0 where
  pub my_dev : ℕ
  pub my_device_class : ℕ
  pub cdev_dev : ℕ
  pub i_open_count : ℤ
  pub p_output_data : ℕ
  pub p_input_data : ℕ
  pub enable_read : ℕ
  pub file_operation : Bool  -- whether `fileOperation` points to `hello_ops`

abbrev pub dev_buff_max : ℕ
dev_buff_max = 128

abbrev pub inc : ℤ → ℤ
inc (pos n) = pos (suc n)
inc (negsuc zero) = pos 0
inc (negsuc (suc n)) = negsuc n

abbrev pub dec : ℤ → ℤ
dec (pos zero) = negsuc 0
dec (pos (suc n)) = pos n
dec (negsuc n) = negsuc (suc n)

abbrev pub hello_open : M MyDev ℤ
hello_open = do
  g ← get
  deref g.my_dev
  put (record g { i_open_count = inc g.i_open_count })
  pure (pos 0)

abbrev pub hello_release : M MyDev ℤ
hello_release = do
  g ← get
  deref g.my_dev
  put (record g { i_open_count = dec g.i_open_count })
  pure (pos 0)

abbrev pub hello_unlocked_ioctl : (cmd arg : ℕ) → M MyDev ℤ
hello_unlocked_ioctl cmd arg = do g ← get; deref g.my_dev; pure (pos 0)

-- An access to `n` bytes from `p` on.
abbrev pub deref_bytes : (p n : ℕ) → M MyDev (Unit {0})
deref_bytes p n = if n == 0 then pure tt else deref p

-- DEBUG("user[%d] = %d", i, user[i]), for each byte
abbrev pub log_user : (user size : ℕ) → M MyDev ℤ
log_user user size = do deref_bytes user size; pure (pos 0)

-- The same, and then the bytes of the input buffer.
abbrev pub log_data : (user size : ℕ) → M MyDev ℤ
log_data user size = do
  deref_bytes user size
  g ← get
  deref_bytes g.p_input_data size
  pure (pos 0)

module _ (k : Kernel) where
  abbrev pub copy_from_user : (to from n : ℕ) → M MyDev ℕ
  copy_from_user to from n = do
    deref_bytes to n
    λ s.
        let r = k.copy_from_user s.tick s.memory s.user to from n in
        ok r.0 (record s { memory = r.1 })

  abbrev pub copy_to_user : (to from n : ℕ) → M MyDev ℕ
  copy_to_user to from n = do
    deref_bytes from n
    λ s. let r = k.copy_to_user s.tick s.user s.memory to from n in ok r.0 (record s { user = r.1 })

  -- The data is logged, from the caller's memory too, and the number of bytes that were not copied.
  -- `others` is what other callers do between the wake-up and `enable_read = 1`.
  abbrev pub hello_write_amid : (others : M MyDev (Unit {0})) (user size : ℕ) → M MyDev ℤ
  hello_write_amid others user size = if ltb dev_buff_max size then pure (negsuc 0) else (do
    g ← get
    deref g.my_dev
    copy_from_user g.p_input_data user size
    void Event.wake_up_interruptible
    others
    h ← get
    put (record h { enable_read = 1 })
    log_data user size)

  unfoldable pub hello_write : (user size : ℕ) → M MyDev ℤ
  hello_write = hello_write_amid (pure tt)

  -- myDev->pOutputData[i] = myDev->pInputData[i] + 2, in a `char`
  pub bump_byte : ℕ → M MyDev (Unit {0})
  bump_byte i = do
    g ← get
    deref g.p_input_data
    deref g.p_output_data
    λ s. ok tt (record s {
      memory = update s.memory (g.p_output_data + i) ((s.memory (g.p_input_data + i) + 2) % 256);
    })

  -- What follows the wait, however that ended.
  pub hello_read_on : (user size : ℕ) → M MyDev ℤ
  unfolding bump_byte
  hello_read_on user size = do
    g ← get
    deref g.my_dev
    put (record g { enable_read = 0 })
    for_range size 0 bump_byte
    copy_to_user user g.p_output_data size
    log_user user size

  -- `others` is what other callers do while this one waits on the queue in the structure.
  unfoldable pub hello_read : (others : M MyDev (Unit {0})) (user size : ℕ) → M MyDev ℤ
  unfolding hello_read_on
  hello_read others user size =
      if ltb dev_buff_max size
      then pure (negsuc 0)
      else (do g ← get; deref g.my_dev; others; hello_read_on user size)

abbrev pub hello_ops : Kernel → (others : M MyDev (Unit {0})) → FileOperations MyDev
hello_ops k others = record {
  open_file = hello_open;
  release = hello_release;
  unlocked_ioctl = hello_unlocked_ioctl;
  read = some (hello_read k others);
  write = some (hello_write k);
}
