-- ===== src/Platform/Release.antt =====
-- What the registering drivers hold after they are unloaded, and what they give back without
-- having it.
use driver_module_test.Prelude.{
  ℕ, suc, ◌+◌, is_neg, is_zero, ◌≡◌, arith, Bool, true, false, not, ◌&&◌, ◌||◌, ◌==◌,
}
use driver_module_test.Kernel.{Kernel, St, final, pure, ◌>>◌}
use driver_module_test.Kernel.Held.{Resource, held, overdrawn}
use driver_module_test.Chrdev.Steps.{bit}
use driver_module_test.Platform.{Globals, life_while}
use driver_module_test.Platform.Hello
use driver_module_test.Platform.Regist
use driver_module_test.Platform.Misc
use driver_module_test.Platform.OnlyMisc
use driver_module_test.Platform.Param
use driver_module_test.Platform.Param.{Parameters}
use driver_module_test.Platform.Param.Log.{loaded-log, loaded-HoldsSame}
use driver_module_test.Platform.Leds
use driver_module_test.Platform.Driver
use driver_module_test.Platform.Device

-- From a state in which `r` is not held: it is held `n` times at the end, and was given back `m`
-- times without being held.
abbrev pub Ends : (r : Resource) (s t : St Globals) (n m : ℕ) → Type 0
Ends r s t n m = (held r t.history ≡ n) × (overdrawn r t.history ≡ overdrawn r s.history + m)

abbrev pub is_driver : Resource → Bool
is_driver Resource.driver = true
is_driver _ = false

abbrev pub is_misc : Resource → Bool
is_misc Resource.misc = true
is_misc _ = false

abbrev pub is_device : Resource → Bool
is_device Resource.device = true
is_device _ = false

abbrev pub is_gpio : ℕ → Resource → Bool
is_gpio p (Resource.gpio q) = p == q
is_gpio p _ = false

module _ (k : Kernel) (s : St Globals) where
  -- The bus took the driver.
  abbrev pub is_taken : Bool
  is_taken = is_zero (k.platform_driver_register s.tick)

  -- When moduleTest is loaded and unloaded, nothing is acquired and nothing given back.
  pub hello_life-Ends :
      (r : Resource)
      → held r s.history ≡ 0
      → let t = final ((do Hello.hello_init; Hello.hello_exit) s) in Ends r s t 0 0
  unfolding Hello.hello_init Hello.hello_exit
  hello_life-Ends r h = ground (arith, h)

  -- When moduleDriverRegist is loaded, bound and unbound if the bus accepts it, and unloaded, a
  -- resource that was not held before is not held after, but for the driver, which stays
  -- registered if the bus accepted it; nothing is given back that was not held.
  pub regist_life-Ends :
      (r : Resource)
      → held r s.history ≡ 0
      → let t =
          final (
            life_while k (Regist.hello_init k) Regist.hello_driver Regist.hello_exit (pure tt) s) in
        Ends r s t (bit (is_driver r && is_taken)) 0
  unfolding Regist.hello_init Regist.hello_probe Regist.hello_remove Regist.hello_exit
  regist_life-Ends Resource.driver h = ground arith
  regist_life-Ends _ h = ground arith

  -- When platform_drv is loaded, bound and unbound if the bus accepts it, and unloaded, a
  -- resource that was not held before is not held after; the driver is given back once without
  -- being held just if the bus refused it.
  pub platform_drv_life-Ends :
      (r : Resource)
      → held r s.history ≡ 0
      → let t = final (
          life_while k
            (Driver.platform_test_init k)
            Driver.my_platform_drv
            Driver.platform_test_exit
            (pure tt)
            s) in
        Ends r s t 0 (bit (is_driver r && not is_taken))
  unfolding Driver.platform_test_init Driver.my_platform_probe Driver.my_platform_remove
      Driver.platform_test_exit Driver.add_my_platform_drv Driver.kill_my_platform_drv
  platform_drv_life-Ends Resource.driver h = ground arith
  platform_drv_life-Ends _ h = ground arith

  -- When platform_dev is loaded and unloaded, a resource that was not held before is not held
  -- after; the device is given back once without being held just if the bus refused it.
  pub platform_dev_life-Ends :
      (r : Resource)
      → held r s.history ≡ 0
      → let t = final ((do Device.platform_dev_init k; Device.platform_dev_exit) s) in
        Ends r s t 0 (bit (is_device r && not (is_zero (k.platform_device_register s.tick))))
  unfolding Device.platform_dev_init Device.platform_dev_exit Device.add_my_platform_dev
      Device.kill_my_platform_dev
  platform_dev_life-Ends Resource.device h = ground arith
  platform_dev_life-Ends _ h = ground arith

  -- When moduleOnlyMiscDriverRegist is loaded and unloaded, a resource that was not held before
  -- is not held after; the misc device is given back once without being held just if it was
  -- refused.
  pub only_misc_life-Ends :
      (r : Resource)
      → held r s.history ≡ 0
      → let t = final ((do OnlyMisc.hello_init k; OnlyMisc.hello_exit) s) in
        Ends r s t 0 (bit (is_misc r && not (is_zero (k.misc_register s.tick))))
  unfolding OnlyMisc.hello_init OnlyMisc.hello_exit
  only_misc_life-Ends Resource.misc h = ground arith
  only_misc_life-Ends _ h = ground arith

  -- When moduleParam is loaded and unloaded, a resource that was not held before is not held
  -- after; the misc device is given back once without being held just if it was refused.
  pub param_life-Ends :
      (p : Parameters) (r : Resource)
      → held r s.history ≡ 0
      → let t = final ((do Param.hello_init p k; Param.hello_exit) s) in
        Ends r s t 0 (bit (is_misc r && not (is_zero (k.misc_register s.tick))))
  unfolding Param.hello_exit
  param_life-Ends p Resource.misc h =
      rw (loaded-log p k s) (ground (arith, loaded-HoldsSame p Resource.misc k s))
  param_life-Ends p r h = rw (loaded-log p k s) (ground (arith, h, loaded-HoldsSame p r k s))

  -- When moduleMiscDriverRegist is loaded, bound and unbound if the bus accepts it, and unloaded,
  -- a resource that was not held before is not held after; the driver is given back once without
  -- being held if the bus refused it, and the misc device if the bus accepted the driver and the
  -- device was refused.
  pub misc_life-Ends :
      (r : Resource)
      → held r s.history ≡ 0
      → let t =
          final
            (life_while k (Misc.hello_init k) (Misc.hello_driver k) Misc.hello_exit (pure tt) s) in
        Ends r s t 0 (
          bit (
            (is_driver r && not is_taken)
            || (is_misc r && (is_taken && not (is_zero (k.misc_register (suc s.tick)))))))
  unfolding Misc.hello_init Misc.hello_probe Misc.hello_remove Misc.hello_exit
  misc_life-Ends Resource.driver h = ground arith
  misc_life-Ends Resource.misc h = ground arith
  misc_life-Ends _ h = ground arith

  -- The pin was granted.
  abbrev pub has_pin : Bool
  has_pin = is_taken && is_zero (k.gpio_request (suc s.tick) (k.gpl2 0))

  -- When moduleDriverLEDS is loaded, bound and unbound if the bus accepts it, and unloaded, a
  -- resource that was not held before is not held after, but for the pin of the lamp, which is
  -- held if the bus accepted the driver and the pin was granted. The driver is given back once
  -- without being held if the bus refused it, and the misc device if it was refused behind a pin
  -- that was not.
  pub leds_life-Ends :
      (r : Resource)
      → held r s.history ≡ 0
      → let t =
          final
            (life_while k (Leds.hello_init k) (Leds.hello_driver k) Leds.hello_exit (pure tt) s) in
        Ends r s t (bit (is_gpio (k.gpl2 0) r && has_pin)) (
          bit (
            (is_driver r && not is_taken)
            || (is_misc r
                && (is_taken
                    && (not (is_neg (k.gpio_request (suc s.tick) (k.gpl2 0)))
                        && not (is_zero (k.misc_register (4 + s.tick))))))))
  unfolding Leds.hello_init Leds.hello_probe Leds.hello_remove Leds.hello_exit
  leds_life-Ends Resource.driver h = ground arith
  leds_life-Ends Resource.misc h = ground arith
  leds_life-Ends (Resource.gpio p) h = ground arith
  leds_life-Ends _ h = ground arith
