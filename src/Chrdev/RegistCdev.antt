-- ===== src/Chrdev/RegistCdev.antt =====
-- moduleRegistCdev/moduleRegistCdev.c: two cdevs, without device nodes.
pub mod Moments
pub mod Release
use driver_module_test.Prelude.{ℕ, ℤ, pos, negsuc, if◌then◌else◌}
use driver_module_test.Prelude.{none}
use driver_module_test.DeviceFile.{FileOperations}
use driver_module_test.Kernel.{Event, Kernel, M, pure, get, ◌>>=◌, ◌>>◌}
use driver_module_test.Kernel.Calls.{void}
use driver_module_test.Kernel.Loops.{for_range}
use driver_module_test.Chrdev.{Globals, device_minor_num, prepare, setup_device, unregister_numbers}

abbrev pub hello_unlocked_ioctl : (cmd arg : ℕ) → M Globals ℤ
hello_unlocked_ioctl cmd arg = pure (pos 0)

abbrev pub hello_release : M Globals ℤ
hello_release = pure (pos 0)

abbrev pub hello_open : M Globals ℤ
hello_open = pure (pos 0)

module _ (k : Kernel) where
  unfoldable pub hello_init : M Globals ℤ
  hello_init = do
    there ← prepare k (pure tt)
    if there
        then (do for_range device_minor_num 0 (setup_device k); pure (pos 0))
        else pure (negsuc 0)

  pub hello_exit : M Globals (Unit {0})
  unfolding unregister_numbers
  hello_exit = do
    g ← get
    for_range device_minor_num 0 (λ i. void (Event.cdev_del g.my_devices i))
    unregister_numbers k

abbrev pub hello_ops : FileOperations Globals
hello_ops = record {
  open_file = hello_open;
  release = hello_release;
  unlocked_ioctl = hello_unlocked_ioctl;
  read = none;
  write = none;
}
