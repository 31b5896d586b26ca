-- ===== src/Chrdev/DCdevNum/Release.antt =====
-- What moduleDCdevNum gives back, and what it gives back without having it.
use driver_module_test.Prelude.{
  ℕ, ◌+◌, is_neg, is_zero, ◌≡◌, arith, Bool, false, ◌&&◌, ◌==◌, if◌then◌else◌,
}
use driver_module_test.Kernel.{Kernel, St, final, and_then}
use driver_module_test.Kernel.Held.{Resource, held, overdrawn}
use driver_module_test.Chrdev.{device_minor_num}
use driver_module_test.Chrdev.Steps.{bit}
use driver_module_test.Chrdev.DCdevNum.{Globals, hello_init, hello_exit}

module _ (k : Kernel) (s : St Globals) where
  -- The kernel refused the numbers.
  abbrev pub is_refused : Bool
  is_refused =
      if is_zero s.globals.numdev_major
      then is_neg (k.alloc_chrdev_region s.tick s.globals.numdev_minor device_minor_num)
      else is_neg (
          k.register_chrdev_region s.tick (k.mkdev s.globals.numdev_major s.globals.numdev_minor)
            device_minor_num)

  -- The number that `hello_exit` gives back. Where the kernel refused to pick one, it is made of what
  -- `num_dev` held, which is not initialised.
  abbrev pub first_number : ℕ
  first_number =
      k.mkdev
        (if is_zero s.globals.numdev_major
          then k.major (k.allocated_dev s.tick)
          else s.globals.numdev_major)
        s.globals.numdev_minor

  -- Let the kernel's macros put together the number that it picks, if it picks one. When
  -- moduleDCdevNum is loaded and unloaded and a range of numbers was not held before, it is not held
  -- after; and just where the kernel refused the numbers, the range that is given back is not held.
  pub number_life-overdrawn :
      (d n : ℕ)
      → (is_refused ≡ false
          → k.mkdev (k.major (k.allocated_dev s.tick)) s.globals.numdev_minor
            ≡ k.allocated_dev s.tick)
      → held (Resource.region d n) s.history ≡ 0
      → let t = final (and_then (hello_init k s) (λ _. hello_exit k)) in
        (held (Resource.region d n) t.history ≡ 0)
        × (overdrawn (Resource.region d n) t.history
            ≡ overdrawn (Resource.region d n) s.history
              + bit (is_refused && (d == first_number && n == device_minor_num)))
  unfolding hello_init hello_exit
  number_life-overdrawn d n law h = ground arith
