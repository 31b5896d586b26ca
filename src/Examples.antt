-- ===== src/Examples.antt =====
-- A kernel that grants every request, which shows that what the theorems assume can hold.
pub mod MemMap
pub mod File
pub mod Chrdev
pub mod Platform
pub mod HelloModule
pub mod LibMem
pub mod Rpmsg
pub mod Programs
use driver_module_test.Prelude.{
  ℕ, zero, suc, ◌+◌, ◌-◌, ◌*◌, ◌/◌, ◌<◌, ℤ, pos, negsuc, false, [], ◌≡◌, refl, arith,
}
use driver_module_test.Prelude.Blit.{blit, padded}
use driver_module_test.Kernel.{Kernel, St}
use driver_module_test.MemMap.{Serves}
use driver_module_test.HelloModule.Transfer.{CopiesAll}

abbrev pub mkdev : ℤ → ℤ → ℕ
mkdev (pos a) (pos b) = a * 1048576 + b
mkdev (negsuc a) (pos b) = b
mkdev _ _ = 0

-- Every mapping is at the same place, one page long.
abbrev pub obliging : Kernel
obliging = record {
  kmalloc = λ t n. 4096 * suc t;
  register_chrdev = λ t m. pos 250;
  register_chrdev_region = λ t d n. pos 0;
  alloc_chrdev_region = λ t m n. pos 0;
  allocated_dev = λ t. 262144000;
  class_create = λ t. 9000;
  cdev_add = λ t b i d n. pos 0;
  device_create = λ t c d. 9100;
  gpio_request = λ t g. pos 0;
  misc_register = λ t. pos 0;
  platform_driver_register = λ t. pos 0;
  platform_device_register = λ t. pos 0;
  mkdev = mkdev;
  major = λ d. pos (d / 1048576);
  is_err = λ a. false;
  ptr_err = λ a. negsuc 0;
  page_shift = 12;
  phys_bits = 32;
  memremap = λ t start. 4096;
  translate = λ t start v. start + (v - 4096);
  probe_kernel_read = λ t memory source to from n. (pos 0, blit memory source to from n);
  copy_to_user = λ t user memory to from n. (0, blit user memory to from n);
  copy_from_user = λ t memory user to from n. (0, blit memory user to from n);
  copy_user_to_page = λ t phys page_map user to from n. (0, blit phys user (page_map to) from n);
  high_memory = 1073741824;
  noncached = λ p. p + 1;
  remap_pfn_range = λ t start pgoff size prot. pos 0;
  sizeof_reg_dev = 16;
  sizeof_my_dev = 160;
  gpx1 = λ i. 100 + i;
  gpl2 = λ i. 200 + i;
  gpio_sfn = λ n. n;
  pull_up = 3;
  gpio_output = 1;
  irq_eint = λ i. i;
}

blit-at :
    (phys page_map user : ℕ → ℕ) (to from n p a : ℕ)
    → ((i : ℕ) → i < n → page_map (to + i) ≡ p + i)
    → blit phys user (page_map to) from n a ≡ padded phys user p from (n - 0) 0 a
blit-at phys page_map user to from zero p a h = ground arith
blit-at phys page_map user to from (suc n) p a h = ground (arith, h 0)

pub obliging-Serves : Serves obliging
obliging-Serves = record {
  aligned = λ t start. refl;
  mapped = λ t start i there lt. omega arith;
  probed = λ t memory source to from n i good lt. ground arith;
  to_user = λ t user memory to from n a good. refl;
  rest_le = λ t phys page_map user to from n. omega arith;
  from_user = λ t phys page_map user to from n p a h. blit-at phys page_map user to from n p a h;
}

pub obliging-CopiesAll : CopiesAll obliging
obliging-CopiesAll = record {
  to_user = λ t user memory to from n a. refl;
  from_user = λ t memory user to from n a. refl;
}

-- Before the first call, with a different value in each cell of the caller's memory.
abbrev pub at_start : {G : Type 0} → G → St G
at_start g = record { globals = g; tick = 0; history = []; memory = λ a. 0; user = λ a. a }
