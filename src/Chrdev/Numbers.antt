-- ===== src/Chrdev/Numbers.antt =====
-- The two drivers that only hold device numbers, moduleSCdevNum and moduleDCdevNum, each from its
-- load to its unload.
use driver_module_test.Prelude.{ℕ, ◌+◌, ◌≡◌, Bool, false, ◌&&◌, ◌==◌}
use driver_module_test.Kernel.{Kernel, St, final, and_then}
use driver_module_test.Kernel.Held.{Resource, held, overdrawn}
use driver_module_test.Chrdev.{device_minor_num}
use driver_module_test.Chrdev.Steps.{bit}
use driver_module_test.Chrdev.SCdevNum
use driver_module_test.Chrdev.SCdevNum.Release as Fixed
use driver_module_test.Chrdev.DCdevNum
use driver_module_test.Chrdev.DCdevNum.Release as Picked

pub data NumberDriver : Type 0 where
  s_cdev_num d_cdev_num : NumberDriver

abbrev pub Variables : NumberDriver → Type 0
Variables s_cdev_num = SCdevNum.Globals
Variables d_cdev_num = DCdevNum.Globals

module _ (k : Kernel) where
  -- A load and, as it returns 0 whatever the kernel answers, an unload.
  abbrev pub number_life : (m : NumberDriver) → St (Variables m) → St (Variables m)
  number_life s_cdev_num s = final (and_then (SCdevNum.hello_init k s) (λ _. SCdevNum.hello_exit k))
  number_life d_cdev_num s = final (and_then (DCdevNum.hello_init k s) (λ _. DCdevNum.hello_exit k))

  -- The macros put together the number that the kernel picks, if it picks one.
  abbrev pub Agrees : (m : NumberDriver) → St (Variables m) → Type 0
  Agrees s_cdev_num s = Unit
  Agrees d_cdev_num s =
      Picked.is_refused k s ≡ false
      → k.mkdev (k.major (k.allocated_dev s.tick)) s.globals.numdev_minor ≡ k.allocated_dev s.tick

  abbrev pub first_number : (m : NumberDriver) → St (Variables m) → ℕ
  first_number s_cdev_num s = Fixed.first_number k s
  first_number d_cdev_num s = Picked.first_number k s

  -- No numbers were asked for, or they were refused.
  abbrev pub is_without : (m : NumberDriver) → St (Variables m) → Bool
  is_without s_cdev_num s = Fixed.is_missing k s
  is_without d_cdev_num s = Picked.is_refused k s

  -- Where moduleDCdevNum lets the kernel pick a number and gets one, let the kernel's macros put
  -- it together. When moduleSCdevNum or moduleDCdevNum is loaded and unloaded and a range of
  -- numbers was not held before, it is not held after; and just where the kernel refused the
  -- numbers, or moduleSCdevNum was given no major, a range is given back once without having been
  -- held. In moduleDCdevNum, after a refusal to pick a number, that range is made of whatever the
  -- variable for the number held.
  pub number_driver-overdrawn :
      (m : NumberDriver) (s : St (Variables m)) (d n : ℕ)
      → Agrees m s
      → held (Resource.region d n) s.history ≡ 0
      → let t = number_life m s in
        (held (Resource.region d n) t.history ≡ 0)
        × (overdrawn (Resource.region d n) t.history
            ≡ overdrawn (Resource.region d n) s.history
              + bit (is_without m s && (d == first_number m s && n == device_minor_num)))
  number_driver-overdrawn s_cdev_num s d n law h = Fixed.fixed_number_life-overdrawn k s d n h
  number_driver-overdrawn d_cdev_num s d n law h = Picked.number_life-overdrawn k s d n law h
