-- ===== src/Kernel/Calls.antt =====
-- The kernel calls as steps of a driver: each records itself and hands its answer on.
use driver_module_test.Prelude.{ℕ, ℤ, not}
use driver_module_test.Kernel.{Event, Kernel, M, ok, record_call}

module _ {G : Type 0} where
  abbrev pub void : Event → M G (Unit {0})
  void e s = ok tt (record_call e s)

  module _ (k : Kernel) where
    abbrev pub kmalloc : ℕ → M G ℕ
    kmalloc size s = let a = k.kmalloc s.tick size in ok a (record_call (Event.kmalloc size a) s)

    abbrev pub register_chrdev : ℤ → M G ℤ
    register_chrdev major s =
        let r = k.register_chrdev s.tick major in
        ok r (record_call (Event.register_chrdev major r) s)

    abbrev pub register_chrdev_region : ℕ → ℕ → M G ℤ
    register_chrdev_region dev count s =
        let r = k.register_chrdev_region s.tick dev count in
        ok r (record_call (Event.register_chrdev_region dev count r) s)

    -- The result and the number that it stores.
    abbrev pub alloc_chrdev_region : ℤ → ℕ → M G (ℤ × ℕ)
    alloc_chrdev_region minor count s =
        let r = k.alloc_chrdev_region s.tick minor count in
        let dev = k.allocated_dev s.tick in
        ok (r, dev) (record_call (Event.alloc_chrdev_region minor count r dev) s)

    abbrev pub class_create : M G ℕ
    class_create s =
        let c = k.class_create s.tick in
        ok c (record_call (Event.class_create c (not (k.is_err c))) s)

    abbrev pub cdev_add : (base i dev count : ℕ) → M G ℤ
    cdev_add base i dev count s =
        let r = k.cdev_add s.tick base i dev count in
        ok r (record_call (Event.cdev_add base i dev count r) s)

    abbrev pub device_create : (cls dev : ℕ) → M G ℕ
    device_create cls dev s =
        let d = k.device_create s.tick cls dev in
        ok d (record_call (Event.device_create cls dev d (not (k.is_err d))) s)

    abbrev pub gpio_request : ℕ → M G ℤ
    gpio_request gpio s =
        let r = k.gpio_request s.tick gpio in ok r (record_call (Event.gpio_request gpio r) s)

    abbrev pub misc_register : M G ℤ
    misc_register s = let r = k.misc_register s.tick in ok r (record_call (Event.misc_register r) s)

    abbrev pub platform_driver_register : M G ℤ
    platform_driver_register s =
        let r = k.platform_driver_register s.tick in
        ok r (record_call (Event.platform_driver_register r) s)

    abbrev pub platform_device_register : M G ℤ
    platform_device_register s =
        let r = k.platform_device_register s.tick in
        ok r (record_call (Event.platform_device_register r) s)

    abbrev pub remap_pfn_range : (start pgoff size prot : ℕ) → M G ℤ
    remap_pfn_range start pgoff size prot s =
        let r = k.remap_pfn_range s.tick start pgoff size prot in
        ok r (record_call (Event.remap_pfn_range start pgoff size prot r) s)
