-- ===== src/Chrdev/Residue.antt =====
-- What the character drivers forget to give back.
use driver_module_test.Prelude.{◌+◌, ◌≡◌, ◌≤◌, ◌==◌}
use driver_module_test.Kernel.{St}
use driver_module_test.Kernel.Held.{Resource, held}
use driver_module_test.Chrdev.{Globals}
use driver_module_test.Chrdev.Steps.{bit}

-- The buffers of both devices stay allocated, and nothing else is held that was not before.
abbrev pub BuffersRemain : St Globals → St Globals → Resource → Type 0
BuffersRemain s t (Resource.memory a) =
    held (Resource.memory a) t.history
    ≡ held (Resource.memory a) s.history
      + bit (a == t.globals.data_of 0)
      + bit (a == t.globals.data_of 1)
BuffersRemain s t (Resource.cdev b j) =
    held (Resource.cdev b j) t.history ≤ held (Resource.cdev b j) s.history
BuffersRemain s t (Resource.node c d) =
    held (Resource.node c d) t.history ≤ held (Resource.node c d) s.history
BuffersRemain s t (Resource.device_class c) =
    held (Resource.device_class c) t.history ≤ held (Resource.device_class c) s.history
BuffersRemain s t r = held r t.history ≡ held r s.history

-- The buffers and the array stay allocated, and nothing else is held that was not before.
abbrev pub ArrayRemains : St Globals → St Globals → Resource → Type 0
ArrayRemains s t (Resource.memory a) =
    held (Resource.memory a) t.history
    ≡ held (Resource.memory a) s.history
      + bit (a == t.globals.my_devices)
      + bit (a == t.globals.data_of 0)
      + bit (a == t.globals.data_of 1)
ArrayRemains s t r = BuffersRemain s t r
