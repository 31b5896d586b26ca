-- ===== src/Platform/Param.antt =====
-- moduleParam/moduleParam.c: a misc device, and module parameters that it logs.
pub mod Log
use driver_module_test.Prelude.{ℕ, ℤ, pos, negsuc, [], ◌∷◌}
use driver_module_test.Prelude.{none}
use driver_module_test.DeviceFile.{FileOperations, Miscdevice}
use driver_module_test.Kernel.{Event, Kernel, M, pure, ◌>>◌}
use driver_module_test.Kernel.Loops.{for_range}
use driver_module_test.Kernel.Calls.{void, misc_register}
use driver_module_test.Platform.{Globals}

abbrev pub hello_misc_release : M Globals ℤ
hello_misc_release = pure (pos 0)

abbrev pub hello_misc_open : M Globals ℤ
hello_misc_open = pure (pos 0)

-- The module's parameters, which are set when it is loaded and only read after that. `array_num` is
-- the number of elements that were given.
pub record Parameters : Type 0 where
  pub module_arg1 : ℤ
  pub module_arg2 : ℤ
  pub int_array : ℕ → ℤ
  pub array_num : ℤ

-- The rounds of `for (i = 0; i < n; i++)`.
abbrev pub rounds : ℤ → ℕ
rounds (pos n) = n
rounds (negsuc n) = 0

unfoldable pub hello_exit : M Globals (Unit {0})
hello_exit = void Event.misc_deregister

module _ (p : Parameters) where
  abbrev pub log_element : ℕ → M Globals (Unit {0})
  log_element i = void (Event.printk (pos i ∷ p.int_array i ∷ []))

  abbrev pub log_parameters : M Globals (Unit {0})
  log_parameters = do
    void (Event.printk (p.module_arg1 ∷ []))
    void (Event.printk (p.module_arg2 ∷ []))
    for_range (rounds p.array_num) 0 log_element

  -- `DriverState`, which is 0, is logged first.
  unfoldable pub hello_init : Kernel → M Globals ℤ
  hello_init k = do misc_register k; void (Event.printk (pos 0 ∷ [])); log_parameters; pure (pos 0)

  unfoldable pub hello_misc_unlocked_ioctl : (cmd arg : ℕ) → M Globals ℤ
  hello_misc_unlocked_ioctl cmd arg = do
    void (Event.printk (pos cmd ∷ pos arg ∷ []))
    log_parameters
    pure (pos 0)

abbrev pub hello_misc_ops : Parameters → FileOperations Globals
hello_misc_ops p = record {
  open_file = hello_misc_open;
  release = hello_misc_release;
  unlocked_ioctl = hello_misc_unlocked_ioctl p;
  read = none;
  write = none;
}

abbrev pub hello_misc_device : Parameters → Miscdevice Globals
hello_misc_device p = record { name = "hello_only_misc_device"; fops = hello_misc_ops p }
