-- ===== src/Chrdev/IrqRegist.antt =====
-- moduleIrqRegist/moduleIrqRegist.c: the node driver with two configured pins. (Its calls of
-- `request_irq` are commented out.)
pub mod Operations
pub mod Moments
pub mod Interrupts
pub mod Release
pub mod Transfer
use driver_module_test.Prelude.{ℕ, ℤ, pos, negsuc, is_zero, if◌then◌else◌}
use driver_module_test.Kernel.{Event, Kernel, M, pure, get, ◌>>=◌, ◌>>◌}
use driver_module_test.Kernel.Calls.{void, gpio_request}
use driver_module_test.Kernel.Loops.{for_range}
use driver_module_test.Chrdev.{
  Globals, device_minor_num, prepare, create_class, setup_node, unregister_numbers,
}

abbrev pub hello_unlocked_ioctl : (cmd arg : ℕ) → M Globals ℤ
hello_unlocked_ioctl cmd arg = pure (pos 0)

abbrev pub hello_release : M Globals ℤ
hello_release = pure (pos 0)

abbrev pub hello_open : M Globals ℤ
hello_open = pure (pos 0)

module _ (k : Kernel) where
  -- `gpio_request` and, if it succeeds, the pin's function and pull-up.
  configure_pin : ℕ → M Globals ℤ
  configure_pin gpio = do
    r ← gpio_request k gpio
    if is_zero r
        then (do
          void (Event.gpio_cfgpin gpio (k.gpio_sfn 0xf))
          void (Event.gpio_setpull gpio k.pull_up)
          pure r)
        else pure r

  unfoldable pub configure_pins : M Globals ℤ
  unfolding configure_pin
  configure_pins = do
    r ← configure_pin (k.gpx1 1)
    if is_zero r
        then (do q ← configure_pin (k.gpx1 2); if is_zero q then pure (pos 0) else pure q)
        else pure r

  unfoldable pub hello_init : M Globals ℤ
  hello_init = do
    there ← prepare k (create_class k)
    if there
        then (do for_range device_minor_num 0 (setup_node k); configure_pins)
        else pure (negsuc 0)

  remove_device : ℕ → M Globals (Unit {0})
  remove_device i = do
    g ← get
    void (Event.cdev_del g.my_devices i)
    void (Event.device_destroy g.my_device_class (k.mkdev g.numdev_major (pos i)))

  pub hello_exit : M Globals (Unit {0})
  unfolding remove_device unregister_numbers
  hello_exit = do
    for_range device_minor_num 0 remove_device
    g ← get
    void (Event.class_destroy g.my_device_class)
    void (Event.kfree g.my_devices)
    void (Event.free_irq (k.irq_eint 9) g.my_devices)
    void (Event.free_irq (k.irq_eint 10) g.my_devices)
    unregister_numbers k

-- The two handlers that would serve the interrupts.
pub data IrqReturn : Type 0 where
  irq_none irq_handled : IrqReturn

abbrev eint9_interrupt : (irq dev_id : ℕ) → M Globals IrqReturn
eint9_interrupt irq dev_id = pure irq_handled

abbrev eint10_interrupt : (irq dev_id : ℕ) → M Globals IrqReturn
eint10_interrupt irq dev_id = pure irq_handled
