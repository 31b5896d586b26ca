-- ===== src/Examples/Rpmsg.antt =====
-- The theorem on the rpmsg test device, where the driver is refused and the device is not.
use driver_module_test.Prelude.{◌+◌, pos, negsuc, [], ◌≡◌, ◌⊎◌}
use driver_module_test.Rpmsg.{Bus, Sys, zeroed, filled_in}
use driver_module_test.Rpmsg.Life.{
  drivers, devices, allocated, rpmsg_life, left_over, rpmsg_life-remains,
}

abbrev refusing : Bus
refusing = record {
  register_virtio_driver = λ t. negsuc 15;
  kzalloc = λ t. 4096;
  rpmsg_chrdev_register_device = λ t p. pos 0;
}

abbrev unloaded : Sys
unloaded = record { tick = 0; calls = []; device_at = λ p. zeroed }

rpmsg_life-remains_example :
    let t = rpmsg_life refusing unloaded in
    (drivers t.calls ≡ drivers unloaded.calls)
    × (devices 4096 t.calls ≡ devices 4096 unloaded.calls + left_over refusing 4096 unloaded)
    × (allocated 4096 t.calls ≡ allocated 4096 unloaded.calls + left_over refusing 4096 unloaded)
    × ((left_over refusing 4096 unloaded ≡ 0) ⊎ (t.device_at 4096 ≡ filled_in))
rpmsg_life-remains_example = rpmsg_life-remains refusing unloaded 4096
