-- ===== src/HelloModule/Init.antt =====
-- Loading and unloading of moduleUbuntuTest.
pub mod Moments
pub mod Ready
pub mod Release
use driver_module_test.Prelude.{
  ℕ, ℤ, pos, negsuc, is_neg, Bool, true, false, ◌==◌, ltb, leb, ◌&&◌, ◌+◌, if◌then◌else◌,
}
use driver_module_test.Kernel.{Event, Kernel, St, ok, M, pure, get, put, deref, ◌>>=◌, ◌>>◌}
use driver_module_test.Kernel.Calls.{
  void, kmalloc, alloc_chrdev_region, class_create, cdev_add, device_create,
}
use driver_module_test.HelloModule.{MyDev, dev_buff_max}

-- memset(p, 0, n)
abbrev pub clear_bytes : ℕ → ℕ → M MyDev (Unit {0})
clear_bytes p n s =
    ok tt (record s { memory = λ a. if leb p a && ltb a (p + n) then 0 else s.memory a })

module _ (k : Kernel) where
  -- Each allocation that fails ends the function, with what was set so far.
  pub init_my_dev : M MyDev (Unit {0})
  init_my_dev = do
    p ← kmalloc k k.sizeof_my_dev
    g ← get
    put (record g { my_dev = p })
    if p == 0 then pure tt else (do
      put (record {
        my_dev = p;
        my_device_class = 0;
        cdev_dev = 0;
        i_open_count = pos 0;
        p_output_data = 0;
        p_input_data = 0;
        enable_read = 0;
        file_operation = false;
      })
      out ← kmalloc k dev_buff_max
      g ← get
      put (record g { p_output_data = out })
      if out == 0 then pure tt else (do
        clear_bytes out dev_buff_max
        inp ← kmalloc k dev_buff_max
        g ← get
        put (record g { p_input_data = inp })
        if inp == 0 then pure tt else (do
          clear_bytes inp dev_buff_max
          h ← get
          put (record h { i_open_count = pos 0; file_operation = true; enable_read = 0 }))))

  -- `numDev` stays 0 where alloc_chrdev_region fails. cdev_init stores the operations that
  -- init_my_dev left in the structure.
  pub hello_init : M MyDev ℤ
  unfolding init_my_dev
  hello_init = do
    init_my_dev
    (r, allocated) ← alloc_chrdev_region k (pos 0) 1
    g ← get
    c ← class_create k
    deref g.my_dev
    put (record g { my_device_class = c })
    let num_dev = if is_neg r then 0 else allocated
    let dev = k.mkdev (k.major num_dev) (pos 0)
    void (Event.cdev_init g.my_dev 0)
    added ← cdev_add k g.my_dev 0 dev 1
    h ← get
    put (record h { cdev_dev = dev })
    if is_neg added then pure (negsuc 0) else (do device_create k c dev; pure (pos 0))

  -- The last three lines of the function clear two fields of `*myDev`, after its `kfree`, and the
  -- pointer.
  pub hello_exit : M MyDev (Unit {0})
  hello_exit = do
    g ← get
    void (Event.cdev_del g.my_dev 0)
    deref g.my_dev
    void (Event.device_destroy g.my_device_class g.cdev_dev)
    void (Event.class_destroy g.my_device_class)
    void (Event.unregister_chrdev_region g.cdev_dev 1)
    void (Event.kfree g.p_output_data)
    void (Event.kfree g.p_input_data)
    void (Event.kfree g.my_dev)
    void (Event.store g.my_dev)
    void (Event.store g.my_dev)
    put (record g { my_dev = 0; p_output_data = 0; p_input_data = 0 })
