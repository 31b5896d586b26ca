-- ===== src/Kernel/Held.antt =====
-- What a history of calls leaves in the driver's possession.
use driver_module_test.Prelude.{
  ℕ, suc, ◌+◌, ◌-◌, ℤ, pos, negsuc, is_neg, is_zero, Bool, false, List, [], ◌∷◌, not, ◌&&◌, ◌==◌,
  if◌then◌else◌,
}
use driver_module_test.Kernel.{Event}

pub data Resource : Type 0 where
  memory : (addr : ℕ) → Resource
  mapping : (addr : ℕ) → Resource
  chrdev : (major : ℕ) → Resource
  region : (dev count : ℕ) → Resource
  device_class : (cls : ℕ) → Resource
  cdev : (base i : ℕ) → Resource
  node : (cls dev : ℕ) → Resource
  gpio : ℕ → Resource
  irq : (irq cookie : ℕ) → Resource
  misc : Resource
  driver : Resource
  device : Resource

pub data Effect : Type 0 where
  gain loss same : Effect

abbrev pub is_major : ℤ → ℕ → Bool
is_major (pos n) m = n == m
is_major (negsuc n) m = false

-- A call that fails acquires nothing.
abbrev pub effect : Event → Resource → Effect
effect (Event.kmalloc _ a) (memory b) = if a == b && not (a == 0) then gain else same
effect (Event.kfree a) (memory b) = if a == b then loss else same
effect (Event.memremap _ a) (mapping b) = if a == b && not (a == 0) then gain else same
effect (Event.memunmap a) (mapping b) = if a == b then loss else same
effect (Event.register_chrdev _ r) (chrdev m) = if is_major r m then gain else same
effect (Event.unregister_chrdev r) (chrdev m) = if is_major r m then loss else same
effect (Event.register_chrdev_region d n r) (region e m) =
    if d == e && n == m && not (is_neg r) then gain else same
effect (Event.alloc_chrdev_region _ n r d) (region e m) =
    if d == e && n == m && not (is_neg r) then gain else same
effect (Event.unregister_chrdev_region d n) (region e m) = if d == e && n == m then loss else same
effect (Event.class_create c created) (device_class d) = if c == d && created then gain else same
effect (Event.class_destroy c) (device_class d) = if c == d then loss else same
effect (Event.cdev_add b i _ _ r) (cdev c j) =
    if b == c && i == j && not (is_neg r) then gain else same
effect (Event.cdev_del b i) (cdev c j) = if b == c && i == j then loss else same
effect (Event.device_create c d _ created) (node e f) =
    if c == e && d == f && created then gain else same
effect (Event.device_destroy c d) (node e f) = if c == e && d == f then loss else same
effect (Event.gpio_request g r) (gpio h) = if g == h && is_zero r then gain else same
effect (Event.free_irq i c) (irq j d) = if i == j && c == d then loss else same
effect (Event.misc_register r) misc = if is_zero r then gain else same
effect Event.misc_deregister misc = loss
effect (Event.platform_driver_register r) driver = if is_zero r then gain else same
effect Event.platform_driver_unregister driver = loss
effect (Event.platform_device_register r) device = if is_zero r then gain else same
effect Event.platform_device_unregister device = loss
effect _ _ = same

abbrev pub settle : Effect → ℕ → ℕ
settle gain n = suc n
settle loss n = n - 1
settle same n = n

-- How often a resource was acquired and not given back.
abbrev pub held : Resource → List Event → ℕ
held r [] = 0
held r (e ∷ h) = settle (effect e r) (held r h)

abbrev overdraft : Effect → ℕ → ℕ
overdraft loss n = if n == 0 then 1 else 0
overdraft _ n = 0

-- How often a resource was given back that was not held.
abbrev pub overdrawn : Resource → List Event → ℕ
overdrawn r [] = 0
overdrawn r (e ∷ h) = overdraft (effect e r) (held r h) + overdrawn r h
