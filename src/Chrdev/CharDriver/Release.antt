-- ===== src/Chrdev/CharDriver/Release.antt =====
-- What moduleCharDriver holds after it was loaded and unloaded again.
use driver_module_test.Prelude.{arith, true}
use driver_module_test.Kernel.{Kernel, St}
use driver_module_test.Kernel.Held.{Resource}
use driver_module_test.Kernel.After.{After}
use driver_module_test.Chrdev.{Globals, create_class, setup_node}
use driver_module_test.Chrdev.Steps.{NoBuffer, NumbersAgree, setup_node-Keeps, setup_node-Gains}
use driver_module_test.Chrdev.Steps.Pair.{for_range-GainsBoth}
use driver_module_test.Chrdev.Load.{Owns, Loads, prepare-create_class-HasArray, load-Loads}
use driver_module_test.Chrdev.Life.{load_unload, LeftBy, load_unload-LeftBy}
use driver_module_test.Chrdev.CharDriver.{hello_init, hello_exit}
use driver_module_test.Chrdev.Residue.{BuffersRemain}

module _ (k : Kernel) where
  pub hello_init-Loads :
      (s : St Globals)
      → NumbersAgree k s.globals.numdev_minor
      → (r : Resource) → After (λ n t. Loads k true true s n t r) NoBuffer (hello_init k s)
  unfolding hello_init
  hello_init-Loads s law =
      load-Loads k s law true true (create_class k) _ (prepare-create_class-HasArray k s law)
        (for_range-GainsBoth k true (setup_node k) (setup_node-Keeps k) (setup_node-Gains k))

  pub hello_exit-BuffersRemain :
      (O : St Globals → Type 0) (s t : St Globals) (r : Resource)
      → Owns k true true s t r
      → After (λ _ u. BuffersRemain s u r) O (hello_exit k t)
  unfolding hello_exit
  hello_exit-BuffersRemain O s t (Resource.memory a) h = ground arith
  hello_exit-BuffersRemain O s t _ h = ground arith

  -- Let the kernel's macros put together the numbers that they take apart. When moduleCharDriver
  -- is loaded, and unloaded again if the load returned 0: a load gives 0 or -1; after an unload
  -- just the two data buffers are held beyond what was before; after a failed load at most the
  -- class is held. The only access through NULL is to a data buffer, right after its allocation
  -- failed.
  pub char_life-LeftBy :
      (s : St Globals) (r : Resource)
      → NumbersAgree k s.globals.numdev_minor
      → After
          (λ n t. LeftBy BuffersRemain true s n t r)
          NoBuffer
          (load_unload (hello_init k) (hello_exit k) s)
  char_life-LeftBy s r law =
      load_unload-LeftBy k true true BuffersRemain (hello_init k) (hello_exit k) s r
        (hello_init-Loads s law r) (λ t h. hello_exit-BuffersRemain NoBuffer s t r h)
