-- ===== src/Platform/Misc.antt =====
-- moduleMiscDriverRegist/moduleMiscDriverRegist.c: a platform driver that makes a misc device.
use driver_module_test.Prelude.{ℕ, ℤ, pos}
use driver_module_test.Prelude.{none, some, refl}
use driver_module_test.DeviceFile.{FileOperations, Miscdevice}
use driver_module_test.Kernel.{Event, Kernel, M, pure, ◌>>◌}
use driver_module_test.Kernel.Calls.{void, platform_driver_register, misc_register}
use driver_module_test.Platform.{Globals, PlatformDriver, PowerEvent, IsIdle}

abbrev pub hello_misc_unlocked_ioctl : (cmd arg : ℕ) → M Globals ℤ
hello_misc_unlocked_ioctl cmd arg = pure (pos 0)

abbrev pub hello_misc_release : M Globals ℤ
hello_misc_release = pure (pos 0)

abbrev pub hello_misc_open : M Globals ℤ
hello_misc_open = pure (pos 0)

-- The result of `misc_register` is not looked at.
unfoldable pub hello_probe : Kernel → M Globals ℤ
hello_probe k = do misc_register k; pure (pos 0)

unfoldable pub hello_remove : M Globals ℤ
hello_remove = do void Event.misc_deregister; pure (pos 0)

abbrev pub hello_shutdown : M Globals (Unit {0})
hello_shutdown = pure tt

abbrev pub hello_suspend : M Globals ℤ
hello_suspend = pure (pos 0)

abbrev pub hello_resume : M Globals ℤ
hello_resume = pure (pos 0)

unfoldable pub hello_init : Kernel → M Globals ℤ
hello_init k = do platform_driver_register k; pure (pos 0)

unfoldable pub hello_exit : M Globals (Unit {0})
hello_exit = void Event.platform_driver_unregister

abbrev pub hello_misc_ops : FileOperations Globals
hello_misc_ops = record {
  open_file = hello_misc_open;
  release = hello_misc_release;
  unlocked_ioctl = hello_misc_unlocked_ioctl;
  read = none;
  write = none;
}

abbrev pub hello_misc_device : Miscdevice Globals
hello_misc_device = record { name = "hello_misc_device"; fops = hello_misc_ops }

abbrev pub hello_driver : Kernel → PlatformDriver
hello_driver k = record {
  probe = hello_probe k;
  remove = hello_remove;
  shutdown = some hello_shutdown;
  suspend = some hello_suspend;
  resume = some hello_resume;
  name = "hello_ctl";
}

pub hello_driver-IsIdle : (k : Kernel) → IsIdle (hello_driver k)
hello_driver-IsIdle k PowerEvent.shutdown s = refl
hello_driver-IsIdle k PowerEvent.suspend s = refl
hello_driver-IsIdle k PowerEvent.resume s = refl
