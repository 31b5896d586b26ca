-- ===== src/Platform/OnlyMisc.antt =====
-- moduleOnlyMiscDriverRegist/moduleOnlyMiscDriverRegist.c: a misc device without a driver.
use driver_module_test.Prelude.{ℕ, ℤ, pos}
use driver_module_test.Prelude.{none}
use driver_module_test.DeviceFile.{FileOperations, Miscdevice}
use driver_module_test.Kernel.{Event, Kernel, M, pure, ◌>>◌}
use driver_module_test.Kernel.Calls.{void, misc_register}
use driver_module_test.Platform.{Globals}

abbrev pub hello_misc_unlocked_ioctl : (cmd arg : ℕ) → M Globals ℤ
hello_misc_unlocked_ioctl cmd arg = pure (pos 0)

abbrev pub hello_misc_release : M Globals ℤ
hello_misc_release = pure (pos 0)

abbrev pub hello_misc_open : M Globals ℤ
hello_misc_open = pure (pos 0)

unfoldable pub hello_init : Kernel → M Globals ℤ
hello_init k = do misc_register k; pure (pos 0)

unfoldable pub hello_exit : M Globals (Unit {0})
hello_exit = void Event.misc_deregister

abbrev pub hello_misc_ops : FileOperations Globals
hello_misc_ops = record {
  open_file = hello_misc_open;
  release = hello_misc_release;
  unlocked_ioctl = hello_misc_unlocked_ioctl;
  read = none;
  write = none;
}

abbrev pub hello_misc_device : Miscdevice Globals
hello_misc_device = record { name = "hello_only_misc_device"; fops = hello_misc_ops }
