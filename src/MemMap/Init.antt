-- ===== src/MemMap/Init.antt =====
-- The module mem_map: the device is made when it is loaded, and taken away when it is unloaded.
pub mod Release
use driver_module_test.Prelude.{ℕ, ℤ, pos, negsuc, is_neg, is_zero, ◌==◌, if◌then◌else◌}
use driver_module_test.Kernel.{Event, Kernel, M, pure, get, put, ◌>>=◌, ◌>>◌}
use driver_module_test.Kernel.Calls.{void, register_chrdev, class_create, device_create}

-- `mem_map_dev`, all zero at first.
pub record MemMapDev : Type 0 where
  pub dev : ℕ
  pub major : ℤ
  pub minor : ℤ
  pub mem_map_dev_class : ℕ

module _ (k : Kernel) where
  -- The variables are set only when all three calls succeeded.
  chr_dev_init : M MemMapDev ℤ
  chr_dev_init = do
    major ← register_chrdev k (pos 0)
    if is_neg major then pure (negsuc 0) else (do
      cls ← class_create k
      if k.is_err cls then pure (k.ptr_err cls) else (do
        dev ← device_create k cls (k.mkdev major (pos 1))
        if k.is_err dev then pure (negsuc 0) else (do
          put (record { dev = dev; major = major; minor = pos 1; mem_map_dev_class = cls })
          pure (pos 0))))

  pub mem_map_init : M MemMapDev ℤ
  unfolding chr_dev_init
  mem_map_init = do chr_dev_init; pure (pos 0)

  release_mem_map_resource : M MemMapDev (Unit {0})
  release_mem_map_resource = do
    d ← get
    if d.dev == 0
        then pure tt
        else void (Event.device_destroy d.mem_map_dev_class (k.mkdev d.major d.minor))
    if d.mem_map_dev_class == 0 then pure tt else void (Event.class_destroy d.mem_map_dev_class)
    if is_zero d.major then pure tt else void (Event.unregister_chrdev d.major)

  pub mem_map_exit : M MemMapDev (Unit {0})
  unfolding release_mem_map_resource
  mem_map_exit = release_mem_map_resource
