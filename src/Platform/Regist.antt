-- ===== src/Platform/Regist.antt =====
-- moduleDriverRegist/moduleDriverRegist.c: a platform driver whose callbacks do nothing.
use driver_module_test.Prelude.{ℤ, pos, some, refl}
use driver_module_test.Kernel.{Kernel, M, pure, ◌>>◌}
use driver_module_test.Kernel.Calls.{platform_driver_register}
use driver_module_test.Platform.{Globals, PlatformDriver, PowerEvent, IsIdle}

unfoldable pub hello_probe : M Globals ℤ
hello_probe = pure (pos 0)

unfoldable pub hello_remove : M Globals ℤ
hello_remove = pure (pos 0)

abbrev pub hello_shutdown : M Globals (Unit {0})
hello_shutdown = pure tt

abbrev pub hello_suspend : M Globals ℤ
hello_suspend = pure (pos 0)

abbrev pub hello_resume : M Globals ℤ
hello_resume = pure (pos 0)

-- The answer of the bus is only logged.
unfoldable pub hello_init : Kernel → M Globals ℤ
hello_init k = do platform_driver_register k; pure (pos 0)

-- Nothing but a message.
unfoldable pub hello_exit : M Globals (Unit {0})
hello_exit = pure tt

abbrev pub hello_driver : PlatformDriver
hello_driver = record {
  probe = hello_probe;
  remove = hello_remove;
  shutdown = some hello_shutdown;
  suspend = some hello_suspend;
  resume = some hello_resume;
  name = "hello_ctl";
}

pub hello_driver-IsIdle : IsIdle hello_driver
hello_driver-IsIdle PowerEvent.shutdown s = refl
hello_driver-IsIdle PowerEvent.suspend s = refl
hello_driver-IsIdle PowerEvent.resume s = refl
