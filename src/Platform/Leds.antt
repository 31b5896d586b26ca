-- ===== src/Platform/Leds.antt =====
-- moduleDriverLEDS/moduleDriverLEDS.c: a lamp on pin GPL2(0), switched by `ioctl`.
use driver_module_test.Prelude.{ℕ, ℤ, pos, is_neg, if◌then◌else◌}
use driver_module_test.Prelude.{none, some, refl}
use driver_module_test.DeviceFile.{FileOperations, Miscdevice}
use driver_module_test.Kernel.{Event, Kernel, M, pure, ◌>>=◌, ◌>>◌}
use driver_module_test.Kernel.Calls.{void, platform_driver_register, misc_register, gpio_request}
use driver_module_test.Platform.{Globals, PlatformDriver, PowerEvent, IsIdle}

abbrev pub hello_misc_release : M Globals ℤ
hello_misc_release = pure (pos 0)

abbrev pub hello_misc_open : M Globals ℤ
hello_misc_open = pure (pos 0)

unfoldable pub hello_remove : M Globals ℤ
hello_remove = do void Event.misc_deregister; pure (pos 0)

abbrev pub hello_shutdown : M Globals (Unit {0})
hello_shutdown = pure tt

abbrev pub hello_suspend : M Globals ℤ
hello_suspend = pure (pos 0)

abbrev pub hello_resume : M Globals ℤ
hello_resume = pure (pos 0)

unfoldable pub hello_exit : M Globals (Unit {0})
hello_exit = void Event.platform_driver_unregister

module _ (k : Kernel) where
  -- A command or an argument above 1 is only logged.
  abbrev hello_misc_ioctl : (cmd arg : ℕ) → M Globals ℤ
  hello_misc_ioctl cmd arg = do void (Event.gpio_set_value (k.gpl2 0) cmd); pure (pos 0)

  unfoldable pub hello_probe : M Globals ℤ
  hello_probe = do
    r ← gpio_request k (k.gpl2 0)
    if is_neg r then pure r else (do
      void (Event.gpio_cfgpin (k.gpl2 0) k.gpio_output)
      void (Event.gpio_set_value (k.gpl2 0) 0)
      misc_register k
      pure (pos 0))

  unfoldable pub hello_init : M Globals ℤ
  hello_init = do platform_driver_register k; pure (pos 0)

abbrev pub hello_misc_ops : Kernel → FileOperations Globals
hello_misc_ops k = record {
  open_file = hello_misc_open;
  release = hello_misc_release;
  unlocked_ioctl = hello_misc_ioctl k;
  read = none;
  write = none;
}

abbrev pub hello_misc_device : Kernel → Miscdevice Globals
hello_misc_device k = record { name = "hello_misc_device"; fops = hello_misc_ops k }

abbrev pub hello_driver : Kernel → PlatformDriver
hello_driver k = record {
  probe = hello_probe k;
  remove = hello_remove;
  shutdown = some hello_shutdown;
  suspend = some hello_suspend;
  resume = some hello_resume;
  name = "hello_ctl";
}

pub hello_driver-IsIdle : (k : Kernel) → IsIdle (hello_driver k)
hello_driver-IsIdle k PowerEvent.shutdown s = refl
hello_driver-IsIdle k PowerEvent.suspend s = refl
hello_driver-IsIdle k PowerEvent.resume s = refl
