-- ===== src/Rpmsg.antt =====
-- virtio_rpmsg_test/virtio_rpmsg_bus.c: the parts between `#ifdef TEST`, which add a device of their
-- own to the copy of the kernel's rpmsg bus, with the load and the unload of the module. The bus
-- itself is not modelled: its calls are answered by a parameter.
pub mod Life
use driver_module_test.Prelude.{
  ℕ, suc, ℤ, pos, negsuc, is_zero, Bool, true, false, List, ◌∷◌, ◌==◌, if◌then◌else◌, update,
}

-- The calls, each with its arguments and, last, its answer.
pub data Call : Type 0 where
  register_virtio_driver : ℤ → Call
  unregister_virtio_driver : Call
  kzalloc : (addr : ℕ) → Call
  kfree : (addr : ℕ) → Call
  rpmsg_chrdev_register_device : (rpdev : ℕ) → ℤ → Call

-- The answers to a call that is made when `tick` calls have gone before.
pub record Bus : Type 0 where
  pub register_virtio_driver : (tick : ℕ) → ℤ
  pub kzalloc : (tick : ℕ) → ℕ
  pub rpmsg_chrdev_register_device : (tick rpdev : ℕ) → ℤ

-- struct virtio_rpmsg_device, as far as it is filled in: whether `ops`, `dev.release` and
-- `dev.init_name` are set, and the two addresses.
pub record VirtioRpmsgDevice : Type 0 where
  pub has_ops : Bool
  pub src : ℕ
  pub dst : ℕ
  pub has_release : Bool
  pub has_name : Bool

pub record Sys : Type 0 where
  pub tick : ℕ
  pub calls : List Call
  pub device_at : ℕ → VirtioRpmsgDevice

abbrev pub call : Call → Sys → Sys
call c s = record s { tick = suc s.tick; calls = c ∷ s.calls }

abbrev pub rpmsg_addr_any : ℕ
rpmsg_addr_any = 0xFFFFFFFF

abbrev pub zeroed : VirtioRpmsgDevice
zeroed = record { has_ops = false; src = 0; dst = 0; has_release = false; has_name = false }

abbrev pub filled_in : VirtioRpmsgDevice
filled_in = record {
  has_ops = true;
  src = rpmsg_addr_any;
  dst = rpmsg_addr_any;
  has_release = true;
  has_name = true;
}

abbrev pub virtio_rpmsg_release_dev : (vir_rp_dev : ℕ) → Sys → Sys
virtio_rpmsg_release_dev vir_rp_dev s = call (Call.kfree vir_rp_dev) s

abbrev pub rpmsg_fini : Sys → Sys
rpmsg_fini s = call Call.unregister_virtio_driver s

module _ (bus : Bus) where
  -- A registration that fails gives up the last reference to the device, and that runs its
  -- `dev.release` (rpmsg_register_device of virtio_rpmsg_test/rpmsg_core.c).
  abbrev register_device : (vir_rp_dev : ℕ) → Sys → ℤ × Sys
  register_device vir_rp_dev s =
      let r = bus.rpmsg_chrdev_register_device s.tick vir_rp_dev in
      let t = call (Call.rpmsg_chrdev_register_device vir_rp_dev r) s in
      if is_zero r
      then (r, t)
      else (if (t.device_at vir_rp_dev).has_release
          then (r, virtio_rpmsg_release_dev vir_rp_dev t)
          else (r, t))

  abbrev pub create_rpmsg_chrdev : Sys → ℤ × Sys
  create_rpmsg_chrdev s =
      let vir_rp_dev = bus.kzalloc s.tick in
      let t = call (Call.kzalloc vir_rp_dev) s in
      if vir_rp_dev == 0
      then (negsuc 11, t)
      else (let u = record t { device_at = update t.device_at vir_rp_dev zeroed } in
          register_device vir_rp_dev
            (record u { device_at = update u.device_at vir_rp_dev filled_in }))

  -- The result of create_rpmsg_chrdev is dropped.
  abbrev pub rpmsg_init : Sys → ℤ × Sys
  rpmsg_init s =
      let ret = bus.register_virtio_driver s.tick in
      let t = call (Call.register_virtio_driver ret) s in (ret, (create_rpmsg_chrdev t).1)
