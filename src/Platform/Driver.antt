-- ===== src/Platform/Driver.antt =====
-- platform/platform_drv/platform_drv.c: a platform driver whose callbacks only log.
use driver_module_test.Prelude.{none, refl, ℤ, pos, negsuc, is_zero, if◌then◌else◌}
use driver_module_test.Kernel.{Event, Kernel, M, pure, ◌>>=◌, ◌>>◌}
use driver_module_test.Kernel.Calls.{void, platform_driver_register}
use driver_module_test.Platform.{Globals, PlatformDriver, PowerEvent, IsIdle}

unfoldable pub my_platform_probe : M Globals ℤ
my_platform_probe = pure (pos 0)

unfoldable pub my_platform_remove : M Globals ℤ
my_platform_remove = pure (pos 0)

unfoldable pub kill_my_platform_drv : M Globals ℤ
kill_my_platform_drv = do void Event.platform_driver_unregister; pure (pos 0)

unfoldable pub platform_test_exit : M Globals (Unit {0})
unfolding kill_my_platform_drv
platform_test_exit = do kill_my_platform_drv; pure tt

module _ (k : Kernel) where
  unfoldable pub add_my_platform_drv : M Globals ℤ
  add_my_platform_drv = do
    r ← platform_driver_register k
    pure (if is_zero r then pos 0 else negsuc 0)

  unfoldable pub platform_test_init : M Globals ℤ
  unfolding add_my_platform_drv
  platform_test_init = do add_my_platform_drv; pure (pos 0)

abbrev pub my_platform_drv : PlatformDriver
my_platform_drv = record {
  probe = my_platform_probe;
  remove = my_platform_remove;
  shutdown = none;
  suspend = none;
  resume = none;
  name = "platform_test";
}

pub my_platform_drv-IsIdle : IsIdle my_platform_drv
my_platform_drv-IsIdle PowerEvent.shutdown s = refl
my_platform_drv-IsIdle PowerEvent.suspend s = refl
my_platform_drv-IsIdle PowerEvent.resume s = refl
