-- ===== src/Platform/Lives.antt =====
-- The seven drivers that register with the platform bus or as a misc device, and moduleTest, which
-- does neither, each from its load to its unload.
use driver_module_test.Prelude.{suc, ◌+◌, is_neg, is_zero, ◌≡◌, Bool, false, not, ◌&&◌, ◌||◌, List}
use driver_module_test.Kernel.{Kernel, St, M, final, ◌>>◌}
use driver_module_test.Kernel.Held.{Resource, held}
use driver_module_test.Chrdev.Steps.{bit}
use driver_module_test.Platform.{Globals, PowerEvent, driver_life, driver_life-IsIdle}
use driver_module_test.Platform.Hello
use driver_module_test.Platform.Regist
use driver_module_test.Platform.Misc
use driver_module_test.Platform.OnlyMisc
use driver_module_test.Platform.Param
use driver_module_test.Platform.Param.{Parameters}
use driver_module_test.Platform.Leds
use driver_module_test.Platform.Driver
use driver_module_test.Platform.Device
use driver_module_test.Platform.Release.{
  Ends, is_driver, is_misc, is_device, is_gpio, is_taken, has_pin, hello_life-Ends,
  regist_life-Ends, platform_drv_life-Ends, platform_dev_life-Ends, only_misc_life-Ends,
  param_life-Ends, misc_life-Ends, leds_life-Ends,
}

pub data Member : Type 0 where
  hello regist misc only_misc leds platform_drv platform_dev : Member
  param : Parameters → Member

module _ (k : Kernel) where
  -- Where a driver is bound, the bus has it handle the events.
  abbrev pub life : (events : List PowerEvent) → Member → M Globals (Unit {0})
  life events hello = do Hello.hello_init; Hello.hello_exit
  life events regist =
      driver_life k (Regist.hello_init k) Regist.hello_driver Regist.hello_exit events
  life events misc = driver_life k (Misc.hello_init k) (Misc.hello_driver k) Misc.hello_exit events
  life events only_misc = do OnlyMisc.hello_init k; OnlyMisc.hello_exit
  life events (param p) = do Param.hello_init p k; Param.hello_exit
  life events leds = driver_life k (Leds.hello_init k) (Leds.hello_driver k) Leds.hello_exit events
  life events platform_drv =
      driver_life k (Driver.platform_test_init k) Driver.my_platform_drv Driver.platform_test_exit
        events
  life events platform_dev = do Device.platform_dev_init k; Device.platform_dev_exit

  module _ (s : St Globals) where
    -- What stays held.
    abbrev pub is_left : Member → Resource → Bool
    is_left regist r = is_driver r && is_taken k s
    is_left leds r = is_gpio (k.gpl2 0) r && has_pin k s
    is_left _ r = false

    abbrev pub is_untaken : Resource → Bool
    is_untaken r = is_driver r && not (is_taken k s)

    -- What is given back without being held.
    abbrev pub is_overdrawn : Member → Resource → Bool
    is_overdrawn hello r = false
    is_overdrawn regist r = false
    is_overdrawn misc r =
        is_untaken r
        || (is_misc r && (is_taken k s && not (is_zero (k.misc_register (suc s.tick)))))
    is_overdrawn only_misc r = is_misc r && not (is_zero (k.misc_register s.tick))
    is_overdrawn (param p) r = is_misc r && not (is_zero (k.misc_register s.tick))
    is_overdrawn leds r =
        is_untaken r
        || (is_misc r
            && (is_taken k s
                && (not (is_neg (k.gpio_request (suc s.tick) (k.gpl2 0)))
                    && not (is_zero (k.misc_register (4 + s.tick))))))
    is_overdrawn platform_drv r = is_untaken r
    is_overdrawn platform_dev r = is_device r && not (is_zero (k.platform_device_register s.tick))

    -- When one of moduleTest, moduleDriverRegist, moduleMiscDriverRegist,
    -- moduleOnlyMiscDriverRegist, moduleParam, moduleDriverLEDS, platform_drv and platform_dev
    -- is loaded, bound and unbound if it is a platform driver that the bus accepts, with any
    -- power events meanwhile, and unloaded, a resource that was not held before is not held
    -- after, but for two: the driver of moduleDriverRegist, if the bus accepted it, and the pin
    -- of moduleDriverLEDS, if the bus accepted the driver and the pin was granted. Just what
    -- the kernel refused is given back once without being held: a platform driver (but that of
    -- moduleDriverRegist), the platform device, and a misc device whose registration was
    -- reached.
    pub life-Ends :
        (m : Member) (events : List PowerEvent) (r : Resource)
        → held r s.history ≡ 0
        → Ends r s (final (life events m s)) (bit (is_left m r)) (bit (is_overdrawn m r))
    life-Ends hello events r h = hello_life-Ends k s r h
    life-Ends regist events r h =
        rw
          (driver_life-IsIdle k (Regist.hello_init k) Regist.hello_driver Regist.hello_exit
            Regist.hello_driver-IsIdle events s)
          (regist_life-Ends k s r h)
    life-Ends misc events r h =
        rw
          (driver_life-IsIdle k (Misc.hello_init k) (Misc.hello_driver k) Misc.hello_exit
            (Misc.hello_driver-IsIdle k) events s)
          (misc_life-Ends k s r h)
    life-Ends only_misc events r h = only_misc_life-Ends k s r h
    life-Ends (param p) events r h = param_life-Ends k s p r h
    life-Ends leds events r h =
        rw
          (driver_life-IsIdle k (Leds.hello_init k) (Leds.hello_driver k) Leds.hello_exit
            (Leds.hello_driver-IsIdle k) events s)
          (leds_life-Ends k s r h)
    life-Ends platform_drv events r h =
        rw
          (driver_life-IsIdle k (Driver.platform_test_init k) Driver.my_platform_drv
            Driver.platform_test_exit Driver.my_platform_drv-IsIdle events s)
          (platform_drv_life-Ends k s r h)
    life-Ends platform_dev events r h = platform_dev_life-Ends k s r h
