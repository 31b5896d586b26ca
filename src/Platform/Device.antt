-- ===== src/Platform/Device.antt =====
-- platform/platform_dev/platform_dev.c: the platform device that platform_drv is for.
use Prim.Native.String.{String}
use driver_module_test.Prelude.{ℤ, pos, negsuc, is_zero, if◌then◌else◌}
use driver_module_test.Kernel.{Event, Kernel, M, pure, ◌>>=◌, ◌>>◌}
use driver_module_test.Kernel.Calls.{void, platform_device_register}
use driver_module_test.Platform.{Globals}

-- `struct platform_device`, which the bus gives to the driver of the same name.
pub record PlatformDevice : Type 0 where
  name : String

abbrev my_platform_dev : PlatformDevice
my_platform_dev = record { name = "platform_test" }

unfoldable pub kill_my_platform_dev : M Globals ℤ
kill_my_platform_dev = do void Event.platform_device_unregister; pure (pos 0)

unfoldable pub platform_dev_exit : M Globals (Unit {0})
unfolding kill_my_platform_dev
platform_dev_exit = do kill_my_platform_dev; pure tt

module _ (k : Kernel) where
  unfoldable pub add_my_platform_dev : M Globals ℤ
  add_my_platform_dev = do
    r ← platform_device_register k
    pure (if is_zero r then pos 0 else negsuc 0)

  unfoldable pub platform_dev_init : M Globals ℤ
  unfolding add_my_platform_dev
  platform_dev_init = do add_my_platform_dev; pure (pos 0)
