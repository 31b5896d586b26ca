-- ===== src/Rpmsg/Life.antt =====
-- What a load, and the unload after a load that returned 0, leave of the test device.
use driver_module_test.Prelude.{
  ℕ, suc, ◌+◌, ◌-◌, is_zero, Bool, List, [], ◌∷◌, ◌==◌, ◌&&◌, not, if◌then◌else◌, ◌≡◌, ◌⊎◌, arith,
}
use driver_module_test.Rpmsg.{Call, Bus, Sys, filled_in, rpmsg_init, rpmsg_fini}

-- How many virtio drivers are registered.
abbrev pub drivers : List Call → ℕ
drivers [] = 0
drivers (Call.register_virtio_driver r ∷ h) = if is_zero r then suc (drivers h) else drivers h
drivers (Call.unregister_virtio_driver ∷ h) = drivers h - 1
drivers (_ ∷ h) = drivers h

-- How many devices at `p` are registered with the bus.
abbrev pub devices : (p : ℕ) → List Call → ℕ
devices p [] = 0
devices p (Call.rpmsg_chrdev_register_device q r ∷ h) =
    if p == q && is_zero r then suc (devices p h) else devices p h
devices p (_ ∷ h) = devices p h

-- How often `p` was allocated and not freed.
abbrev pub allocated : (p : ℕ) → List Call → ℕ
allocated p [] = 0
allocated p (Call.kzalloc q ∷ h) =
    if p == q && not (q == 0) then suc (allocated p h) else allocated p h
allocated p (Call.kfree q ∷ h) = if p == q then allocated p h - 1 else allocated p h
allocated p (_ ∷ h) = allocated p h

module _ (bus : Bus) where
  -- The module goes away after a load that failed, and at the unload.
  abbrev pub rpmsg_life : Sys → Sys
  rpmsg_life s =
      let loaded = rpmsg_init bus s in if is_zero loaded.0 then rpmsg_fini loaded.1 else loaded.1

  abbrev pub device_of : Sys → ℕ
  device_of s = bus.kzalloc (suc s.tick)

  -- There is memory for the device and the bus takes it.
  abbrev pub is_taken : Sys → Bool
  is_taken s =
      not (device_of s == 0)
      && is_zero (bus.rpmsg_chrdev_register_device (suc (suc s.tick)) (device_of s))

  -- 1 for the device that the bus took.
  abbrev pub left_over : (p : ℕ) → Sys → ℕ
  left_over p s = if p == device_of s && is_taken s then 1 else 0

  -- When the rpmsg bus with the test device is loaded, and unloaded if the load returned 0, as
  -- many virtio drivers are registered as before. But just where the device got memory and the
  -- bus took it, and whether or not the load failed, the device stays registered, its memory
  -- stays allocated, and it is filled in with both addresses open and its release function set.
  pub rpmsg_life-remains :
      (s : Sys) (p : ℕ)
      → let t = rpmsg_life s in
        (drivers t.calls ≡ drivers s.calls)
        × (devices p t.calls ≡ devices p s.calls + left_over p s)
        × (allocated p t.calls ≡ allocated p s.calls + left_over p s)
        × ((left_over p s ≡ 0) ⊎ (t.device_at p ≡ filled_in))
  rpmsg_life-remains s p = (ground arith, ground arith, ground arith, ground arith)
