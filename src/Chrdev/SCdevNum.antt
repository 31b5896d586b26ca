-- ===== src/Chrdev/SCdevNum.antt =====
-- moduleSCdevNum/moduleSCdevNum.c: device numbers that the caller fixes.
pub mod Release
use driver_module_test.Prelude.{ℕ, ℤ, pos, is_zero, if◌then◌else◌}
use driver_module_test.Prelude.{none}
use driver_module_test.DeviceFile.{FileOperations}
use driver_module_test.Kernel.{Event, Kernel, M, pure, get, ◌>>=◌, ◌>>◌}
use driver_module_test.Kernel.Calls.{void, register_chrdev_region}
use driver_module_test.Chrdev.{device_minor_num}

pub record Globals : Type 0 where
  pub numdev_major : ℤ
  pub numdev_minor : ℤ

abbrev pub hello_unlocked_ioctl : (cmd arg : ℕ) → M Globals ℤ
hello_unlocked_ioctl cmd arg = pure (pos 0)

abbrev pub hello_release : M Globals ℤ
hello_release = pure (pos 0)

abbrev pub hello_open : M Globals ℤ
hello_open = pure (pos 0)

module _ (k : Kernel) where
  -- Without a major nothing is registered; that, and a refusal, are only logged.
  pub hello_init : M Globals ℤ
  hello_init = do
    g ← get
    if is_zero g.numdev_major then pure (pos 0) else (do
      register_chrdev_region k (k.mkdev g.numdev_major g.numdev_minor) device_minor_num
      pure (pos 0))

  pub hello_exit : M Globals (Unit {0})
  hello_exit = do
    g ← get
    void (Event.unregister_chrdev_region (k.mkdev g.numdev_major g.numdev_minor) device_minor_num)

abbrev pub hello_ops : FileOperations Globals
hello_ops = record {
  open_file = hello_open;
  release = hello_release;
  unlocked_ioctl = hello_unlocked_ioctl;
  read = none;
  write = none;
}
