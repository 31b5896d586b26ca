-- ===== src/Chrdev/SCdevNum/Release.antt =====
-- What moduleSCdevNum gives back, and what it gives back without having it.
use driver_module_test.Prelude.{ℕ, ◌+◌, is_neg, is_zero, ◌≡◌, arith, Bool, ◌&&◌, ◌||◌, ◌==◌}
use driver_module_test.Kernel.{Kernel, St, final, and_then}
use driver_module_test.Kernel.Held.{Resource, held, overdrawn}
use driver_module_test.Chrdev.{device_minor_num}
use driver_module_test.Chrdev.Steps.{bit}
use driver_module_test.Chrdev.SCdevNum.{Globals, hello_init, hello_exit}

module _ (k : Kernel) (s : St Globals) where
  abbrev pub first_number : ℕ
  first_number = k.mkdev s.globals.numdev_major s.globals.numdev_minor

  -- The numbers were not asked for, or were refused.
  abbrev pub is_missing : Bool
  is_missing =
      is_zero s.globals.numdev_major
      || is_neg (k.register_chrdev_region s.tick first_number device_minor_num)

  -- When moduleSCdevNum is loaded and unloaded and a range of numbers was not held before, it is
  -- not held after; and just where no major was given or the kernel refused, the range is given
  -- back once without having been held.
  pub fixed_number_life-overdrawn :
      (d n : ℕ)
      → held (Resource.region d n) s.history ≡ 0
      → let t = final (and_then (hello_init k s) (λ _. hello_exit k)) in
        (held (Resource.region d n) t.history ≡ 0)
        × (overdrawn (Resource.region d n) t.history
            ≡ overdrawn (Resource.region d n) s.history
              + bit (is_missing && (d == first_number && n == device_minor_num)))
  unfolding hello_init hello_exit
  fixed_number_life-overdrawn d n h = ground arith
