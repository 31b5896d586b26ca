-- ===== src/MemMap/Init/Release.antt =====
-- What the module mem_map holds after it was loaded and unloaded again.
use driver_module_test.Prelude.{
  is_zero, refl, zero, Bool, true, false, Bool-cases, inl, inr, ℕ, suc, ℤ, ◌+◌, pos, negsuc, is_neg,
  not, ◌&&◌, ◌||◌, ◌≡◌, ◌≢◌, ◌==◌, arith,
}
use driver_module_test.Kernel.{Event, Kernel, St, final, and_then}
use driver_module_test.Kernel.Held.{Resource, held, is_major, effect, settle}
use driver_module_test.Chrdev.Steps.{bit}
use driver_module_test.MemMap.Init.{MemMapDev, mem_map_init, mem_map_exit}

==-zero : (a : ℕ) → a ≢ 0 → (a == 0) ≡ false
==-zero a h = ground arith

is_zero-ne : (z : ℤ) → z ≢ pos 0 → is_zero z ≡ false
is_zero-ne (pos zero) h = absurd (h refl)
is_zero-ne (pos (suc n)) h = refl
is_zero-ne (negsuc n) h = refl

module _ (k : Kernel) (s : St MemMapDev) where
  abbrev major : ℤ
  major = k.register_chrdev s.tick (pos 0)

  abbrev cls : ℕ
  cls = k.class_create (suc s.tick)

  abbrev device : ℕ
  device = k.device_create (suc (suc s.tick)) cls (k.mkdev major (pos 1))

  -- The variables are as the loader leaves them.
  abbrev pub fresh : St MemMapDev
  fresh = record s {
    globals = record { dev = 0; major = pos 0; minor = pos 0; mem_map_dev_class = 0 };
  }

  -- The kernel gives a dynamic major above 0, and no NULL for a class or a device.
  pub record Answers : Type 0 where
    pub major_ne : major ≢ pos 0
    pub class_ne : cls ≢ 0
    pub device_ne : device ≢ 0

  abbrev unloaded : St MemMapDev
  unloaded = final (and_then (mem_map_init k fresh) (λ _. mem_map_exit k))

  -- What is never given back: the class if the device could not be made, and the major if the
  -- class or the device could not.
  abbrev pub leak : Resource → ℕ
  leak (Resource.chrdev m) = bit (is_major major m && (k.is_err cls || k.is_err device))
  leak (Resource.device_class c) =
      bit (not (is_neg major) && (not (k.is_err cls) && (k.is_err device && cls == c)))
  leak r = 0

  abbrev asked : Resource → ℕ
  asked r = settle (effect (Event.register_chrdev (pos 0) major) r) (held r s.history)

  abbrev classed : Bool → Resource → ℕ
  classed created r = settle (effect (Event.class_create cls created) r) (asked r)

  abbrev number : ℕ
  number = k.mkdev major (pos 1)

  abbrev made : Bool → Resource → ℕ
  made created r =
      settle (effect (Event.device_create cls number device created) r) (classed true r)

  no_chrdev : (r : Resource) → is_neg major ≡ true → asked r ≡ held r s.history + leak r
  no_chrdev (Resource.chrdev m) e = ground arith
  no_chrdev _ e = ground arith

  no_class :
      (r : Resource)
      → is_neg major ≡ false
      → k.is_err cls ≡ true
      → classed false r ≡ held r s.history + leak r
  no_class (Resource.chrdev m) e c = ground arith
  no_class _ e c = ground arith

  no_device :
      (r : Resource)
      → is_neg major ≡ false
      → k.is_err cls ≡ false
      → k.is_err device ≡ true
      → made false r ≡ held r s.history + leak r
  no_device (Resource.chrdev m) e c d = ground arith
  no_device _ e c d = ground arith

  all_back :
      (r : Resource)
      → is_neg major ≡ false
      → k.is_err cls ≡ false
      → k.is_err device ≡ false
      → settle (effect (Event.unregister_chrdev major) r) (
          settle
            (effect (Event.class_destroy cls) r)
            (settle (effect (Event.device_destroy cls number) r) (made true r)))
        ≡ held r s.history + leak r
  all_back (Resource.chrdev m) e c d = ground arith
  all_back _ e c d = ground arith

  -- Where the kernel gives a major other than 0 and no NULL for a class or a device: when mem_map
  -- is loaded with its variables zero and unloaded again, each resource is held as often as
  -- before, but for the major if the class or the device was refused, and the class if the device
  -- was refused, which are never given back.
  pub mem_map_life : (r : Resource) → Answers → held r unloaded.history ≡ held r s.history + leak r
  unfolding mem_map_init mem_map_exit
  mem_map_life r h = elim (Bool-cases (is_neg major)) [
    | inl refused ↦ rw refused (no_chrdev r refused)
    | inr major_there ↦ elim (Bool-cases (k.is_err cls)) [
      | inl refused ↦ rw (major_there, refused) (no_class r major_there refused)
      | inr class_there ↦ elim (Bool-cases (k.is_err device)) [
        | inl refused ↦
            rw (major_there, class_there, refused) (no_device r major_there class_there refused)
        | inr device_there ↦
            rw
              (
                major_there,
                class_there,
                device_there,
                ==-zero device h.device_ne,
                ==-zero cls h.class_ne,
                is_zero-ne major h.major_ne,
              )
              (all_back r major_there class_there device_there)
      ]
    ]
  ]
