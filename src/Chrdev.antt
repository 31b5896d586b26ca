-- ===== src/Chrdev.antt =====
-- What the character drivers moduleRegistCdev, moduleCreateCharNode, moduleCharDriver and
-- moduleIrqRegist share word for word (and the number drivers moduleSCdevNum and moduleDCdevNum in
-- part): their variables, the choice of device numbers, one `struct reg_dev`, and `cdev`.
pub mod SCdevNum
pub mod DCdevNum
pub mod RegistCdev
pub mod Steps
pub mod Load
pub mod Life
pub mod CreateCharNode
pub mod CharDriver
pub mod IrqRegist
pub mod Residue
pub mod Stages
pub mod Nodes
pub mod Moments
pub mod Lives
pub mod Numbers
pub mod Numbering
use driver_module_test.Prelude.{
  ℕ, ◌+◌, ◌*◌, ℤ, pos, negsuc, is_neg, is_zero, Bool, true, false, ◌&&◌, ◌==◌, ltb, leb, update,
  if◌then◌else◌,
}
use driver_module_test.Kernel.{Event, Kernel, St, ok, M, pure, get, put, deref, ◌>>=◌, ◌>>◌}
use driver_module_test.Kernel.Calls.{
  void, kmalloc, register_chrdev_region, alloc_chrdev_region, cdev_add, class_create, device_create,
}

-- `data_of i` and `size_of i` are the fields of `my_devices[i]`.
pub record Globals : Type 0 where
  pub numdev_major : ℤ
  pub numdev_minor : ℤ
  pub my_device_class : ℕ
  pub my_devices : ℕ
  pub data_of : ℕ → ℕ
  pub size_of : ℕ → ℕ

abbrev pub device_minor_num : ℕ
device_minor_num = 2

abbrev pub reg_dev_size : ℕ
reg_dev_size = 1024

-- memset(p, 0, n)
abbrev pub clear_bytes : ℕ → ℕ → M Globals (Unit {0})
clear_bytes p n s =
    ok tt (record s { memory = λ a. if leb p a && ltb a (p + n) then 0 else s.memory a })

module _ (k : Kernel) where
  -- The first number: the caller's major, or one that the kernel picks.
  pub register_numbers : M Globals ℤ
  register_numbers = do
    g ← get
    if is_zero g.numdev_major
        then (do
          (r, dev) ← alloc_chrdev_region k g.numdev_minor device_minor_num
          put (record g { numdev_major = k.major dev })
          pure r)
        else register_chrdev_region k (k.mkdev g.numdev_major g.numdev_minor) device_minor_num

  pub reg_init_cdev : ℕ → M Globals ℤ
  reg_init_cdev index = do
    g ← get
    void (Event.cdev_init g.my_devices index)
    r ← cdev_add k g.my_devices index (k.mkdev g.numdev_major (pos index)) 1
    pure (if is_neg r then negsuc 0 else pos 0)

  -- The array of devices, all zero; without memory the numbers are given back.
  pub allocate_devices : M Globals Bool
  allocate_devices = do
    p ← kmalloc k (2 * k.sizeof_reg_dev)
    g ← get
    put (record g { my_devices = p })
    if p == 0
        then (do
          void (
              Event.unregister_chrdev_region (k.mkdev g.numdev_major g.numdev_minor)
                device_minor_num)
          pure false)
        else (do put (record g { my_devices = p; data_of = λ _. 0; size_of = λ _. 0 }); pure true)

  -- Numbers, the class if the driver makes one, and the array; false where the load fails.
  pub prepare : M Globals (Unit {0}) → M Globals Bool
  unfolding register_numbers allocate_devices
  prepare make_class = do
    r ← register_numbers
    if is_neg r then pure false else (do make_class; allocate_devices)

  -- The part of the loop's body that all four drivers have.
  pub setup_device : ℕ → M Globals (Unit {0})
  unfolding reg_init_cdev
  setup_device i = do
    p ← kmalloc k reg_dev_size
    g ← get
    put (record g { data_of = update g.data_of i p })
    deref p
    clear_bytes p reg_dev_size
    h ← get
    put (record h { size_of = update h.size_of i reg_dev_size })
    reg_init_cdev i
    pure tt

  -- The loop's body where the driver also creates a node under /dev.
  pub setup_node : ℕ → M Globals (Unit {0})
  unfolding setup_device
  setup_node i = do
    setup_device i
    g ← get
    device_create k g.my_device_class (k.mkdev g.numdev_major (pos i))
    pure tt

  pub create_class : M Globals (Unit {0})
  create_class = do c ← class_create k; g ← get; put (record g { my_device_class = c })

  pub unregister_numbers : M Globals (Unit {0})
  unregister_numbers = do
    g ← get
    void (Event.unregister_chrdev_region (k.mkdev g.numdev_major g.numdev_minor) device_minor_num)
