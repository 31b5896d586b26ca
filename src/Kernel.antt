-- ===== src/Kernel.antt =====
-- What the drivers see of the kernel: the calls they make, the answers they get, and the state
-- that a handler runs in. The kernel is not part of the repository, so every answer is a parameter.
pub mod After
pub mod Calls
pub mod Held
pub mod Loops
pub mod Moments
use driver_module_test.Prelude.{ℕ, suc, ℤ, Bool, List, ◌∷◌, ◌==◌, if◌then◌else◌}

-- One call of a kernel service, with its arguments and, last, its answer. An address is a number,
-- and 0 is NULL. The `struct cdev` of the `i`-th element of an array of structures is known by the
-- address of the array and `i`.
pub data Event : Type 0 where
  kmalloc : (size addr : ℕ) → Event
  kfree : (addr : ℕ) → Event
  register_chrdev : (major : ℤ) → ℤ → Event
  unregister_chrdev : (major : ℤ) → Event
  register_chrdev_region : (dev count : ℕ) → ℤ → Event
  alloc_chrdev_region : (minor : ℤ) (count : ℕ) → ℤ → (dev : ℕ) → Event
  unregister_chrdev_region : (dev count : ℕ) → Event
  class_create : (cls : ℕ) (created : Bool) → Event
  class_destroy : (cls : ℕ) → Event
  cdev_init : (base i : ℕ) → Event
  cdev_add : (base i dev count : ℕ) → ℤ → Event
  cdev_del : (base i : ℕ) → Event
  device_create : (cls dev node : ℕ) (created : Bool) → Event
  device_destroy : (cls dev : ℕ) → Event
  gpio_request : (gpio : ℕ) → ℤ → Event
  gpio_cfgpin : (gpio function : ℕ) → Event
  gpio_setpull : (gpio pull : ℕ) → Event
  gpio_set_value : (gpio value : ℕ) → Event
  memremap : (start addr : ℕ) → Event
  memunmap : (addr : ℕ) → Event
  remap_pfn_range : (start pgoff size prot : ℕ) → ℤ → Event
  wake_up_interruptible : Event
  store : (addr : ℕ) → Event
  free_irq : (irq cookie : ℕ) → Event
  misc_register : ℤ → Event
  misc_deregister : Event
  platform_driver_register : ℤ → Event
  platform_driver_unregister : Event
  platform_device_register : ℤ → Event
  platform_device_unregister : Event
  printk : List ℤ → Event  -- a message with these numbers

-- The kernel's answer to a call that is made when `tick` calls have gone before, and the macros
-- of its headers. Nothing is assumed of them here.
pub record Kernel : Type 0 where
  pub kmalloc : (tick size : ℕ) → ℕ
  pub register_chrdev : (tick : ℕ) (major : ℤ) → ℤ
  pub register_chrdev_region : (tick dev count : ℕ) → ℤ
  pub alloc_chrdev_region : (tick : ℕ) (minor : ℤ) (count : ℕ) → ℤ
  pub allocated_dev : (tick : ℕ) → ℕ  -- what its variable holds after `alloc_chrdev_region`
  pub class_create : (tick : ℕ) → ℕ
  pub cdev_add : (tick base i dev count : ℕ) → ℤ
  pub device_create : (tick cls dev : ℕ) → ℕ
  pub gpio_request : (tick gpio : ℕ) → ℤ
  pub misc_register : (tick : ℕ) → ℤ
  pub platform_driver_register : (tick : ℕ) → ℤ
  pub platform_device_register : (tick : ℕ) → ℤ
  pub mkdev : ℤ → ℤ → ℕ
  pub major : ℕ → ℤ
  pub is_err : ℕ → Bool
  pub ptr_err : ℕ → ℤ
  -- Pages of `2 ^ page_shift` bytes, and physical addresses of `phys_bits` bits.
  pub page_shift : ℕ
  pub phys_bits : ℕ
  -- A mapping of a page: its address, and the physical address behind each virtual one.
  pub memremap : (tick start : ℕ) → ℕ
  pub translate : (tick start : ℕ) → ℕ → ℕ
  -- The copies: what they return, and the store that they leave.
  pub probe_kernel_read : (tick : ℕ) (memory source : ℕ → ℕ) (to from n : ℕ) → ℤ × (ℕ → ℕ)
  pub copy_to_user : (tick : ℕ) (user memory : ℕ → ℕ) (to from n : ℕ) → ℕ × (ℕ → ℕ)
  pub copy_from_user : (tick : ℕ) (memory user : ℕ → ℕ) (to from n : ℕ) → ℕ × (ℕ → ℕ)
  pub copy_user_to_page :
      (tick : ℕ) (phys : ℕ → ℕ) (page_map : ℕ → ℕ) (user : ℕ → ℕ) (to from n : ℕ) → ℕ × (ℕ → ℕ)
  -- Mappings into a process.
  pub high_memory : ℕ
  pub noncached : ℕ → ℕ
  pub remap_pfn_range : (tick start pgoff size prot : ℕ) → ℤ
  pub sizeof_reg_dev : ℕ
  pub sizeof_my_dev : ℕ
  -- The board's numbers for its pins, their functions and its interrupts.
  pub gpx1 : ℕ → ℕ
  pub gpl2 : ℕ → ℕ
  pub gpio_sfn : ℕ → ℕ
  pub pull_up : ℕ
  pub gpio_output : ℕ
  pub irq_eint : ℕ → ℕ

-- The module's variables, the calls made so far (the last one first), and memory by bytes.
pub record St (G : Type 0) : Type 0 where
  pub globals : G
  pub tick : ℕ
  pub history : List Event
  pub memory : ℕ → ℕ
  pub user : ℕ → ℕ

-- A run ends with a value, or with an access through NULL; the model of a loop may also run out of
-- the rounds that it was given.
pub data Run (G A : Type 0) : Type 0 where
  ok : A → St G → Run G A
  oops : St G → Run G A
  out_of_fuel : St G → Run G A

module _ {G : Type 0} where
  abbrev pub pure : {A : Type 0} → A → St G → Run G A
  pure a s = ok a s

  module _ {A B : Type 0} where
    abbrev pub and_then : Run G A → (A → St G → Run G B) → Run G B
    and_then (ok a s) f = f a s
    and_then (oops s) f = oops s
    and_then (out_of_fuel s) f = out_of_fuel s

    infixl 5 ◌>>=◌ ◌>>◌
    abbrev pub ◌>>=◌ : (St G → Run G A) → (A → St G → Run G B) → St G → Run G B
    (m >>= f) s = and_then (m s) f

    abbrev pub ◌>>◌ : (St G → Run G A) → (St G → Run G B) → St G → Run G B
    m >> n = m >>= λ _. n

  abbrev pub get : St G → Run G G
  get s = ok s.globals s

  abbrev pub put : G → St G → Run G (Unit {0})
  put g s = ok tt (record s { globals = g })

  -- One more call.
  abbrev pub record_call : Event → St G → St G
  record_call e s = record s { tick = suc s.tick; history = e ∷ s.history }

  -- A read or write through `p`.
  abbrev pub deref : ℕ → St G → Run G (Unit {0})
  deref p s = if p == 0 then oops s else ok tt s

  -- The state in which a run stopped.
  abbrev pub final : {A : Type 0} → Run G A → St G
  final (ok a s) = s
  final (oops s) = s
  final (out_of_fuel s) = s

abbrev pub M : Type 0 → Type 0 → Type 0
M G A = St G → Run G A
