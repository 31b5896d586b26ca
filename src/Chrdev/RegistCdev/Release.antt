-- ===== src/Chrdev/RegistCdev/Release.antt =====
-- What moduleRegistCdev holds after it was loaded and unloaded again.
use driver_module_test.Prelude.{false, arith}
use driver_module_test.Kernel.{Kernel, St, pure}
use driver_module_test.Kernel.Held.{Resource}
use driver_module_test.Kernel.After.{After}
use driver_module_test.Chrdev.{Globals, setup_device}
use driver_module_test.Chrdev.Steps.{NoBuffer, NumbersAgree, setup_device-Keeps, setup_device-Gains}
use driver_module_test.Chrdev.Steps.Pair.{for_range-GainsBoth}
use driver_module_test.Chrdev.Load.{Owns, Loads, prepare-HasArray, load-Loads}
use driver_module_test.Chrdev.Life.{load_unload, LeftBy, load_unload-LeftBy}
use driver_module_test.Chrdev.Residue.{ArrayRemains}
use driver_module_test.Chrdev.RegistCdev.{hello_init, hello_exit}

module _ (k : Kernel) where
  hello_init-Loads :
      (s : St Globals)
      → NumbersAgree k s.globals.numdev_minor
      → (r : Resource) → After (λ n t. Loads k false false s n t r) NoBuffer (hello_init k s)
  unfolding hello_init
  hello_init-Loads s law =
      load-Loads k s law false false (pure tt) _ (prepare-HasArray k s law)
        (for_range-GainsBoth k false (setup_device k) (setup_device-Keeps k) (setup_device-Gains k))

  hello_exit-ArrayRemains :
      (s t : St Globals) (r : Resource)
      → Owns k false false s t r
      → After (λ _ u. ArrayRemains s u r) NoBuffer (hello_exit k t)
  unfolding hello_exit
  hello_exit-ArrayRemains s t (Resource.memory a) h = ground arith
  hello_exit-ArrayRemains s t _ h = ground arith

  -- Let the kernel's macros put together the numbers that they take apart. When moduleRegistCdev
  -- is loaded, and unloaded again if the load returned 0: a load gives 0 or -1; after an unload
  -- just the array and the two data buffers are held beyond what was before; after a failed load
  -- nothing is. The only access through NULL is to a data buffer, right after its allocation
  -- failed.
  pub cdev_life-LeftBy :
      (s : St Globals) (r : Resource)
      → NumbersAgree k s.globals.numdev_minor
      → After
          (λ n t. LeftBy ArrayRemains false s n t r)
          NoBuffer
          (load_unload (hello_init k) (hello_exit k) s)
  cdev_life-LeftBy s r law =
      load_unload-LeftBy k false false ArrayRemains (hello_init k) (hello_exit k) s r
        (hello_init-Loads s law r) (λ t h. hello_exit-ArrayRemains s t r h)
