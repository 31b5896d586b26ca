-- ===== src/Chrdev/Numbering.antt =====
-- The numbers that the drivers with cdevs register, and the numbers of their cdevs.
use driver_module_test.Prelude.{
  ℕ, zero, suc, ◌+◌, ◌<◌, ◌^◌, ◌==◌, ℤ, pos, negsuc, is_neg, is_zero, ◌≡◌, arith, Bool, true, false,
  leb, ltb, ◌&&◌, List, [], ◌∷◌, if◌then◌else◌,
}
use driver_module_test.Kernel.{Event, Kernel, St, M, pure, ◌>>◌}
use driver_module_test.Kernel.Loops.{for_range}
use driver_module_test.Kernel.After.{After, After-bind, After-mono}
use driver_module_test.Chrdev.{
  Globals, prepare, create_class, setup_device, setup_node, device_minor_num,
}
use driver_module_test.Chrdev.Steps.{NoBuffer, NumbersAgree}
use driver_module_test.Chrdev.Lives.{Driver, regist_cdev, create_char_node, char_driver, irq_regist}
use driver_module_test.Chrdev.RegistCdev
use driver_module_test.Chrdev.CreateCharNode
use driver_module_test.Chrdev.CharDriver
use driver_module_test.Chrdev.IrqRegist
use driver_module_test.Chrdev.IrqRegist.{configure_pins}

-- The ranges that the kernel granted, with the first number and the count of each, the last one
-- first.
abbrev pub registered : List Event → List (ℕ × ℕ)
registered [] = []
registered (Event.register_chrdev_region dev n r ∷ h) =
    if is_neg r then registered h else (dev, n) ∷ registered h
registered (Event.alloc_chrdev_region minor n r dev ∷ h) =
    if is_neg r then registered h else (dev, n) ∷ registered h
registered (_ ∷ h) = registered h

-- The numbers for which a cdev was to be added, the last one first.
abbrev pub added : List Event → List ℕ
added [] = []
added (Event.cdev_add base i dev n r ∷ h) = dev ∷ added h
added (_ ∷ h) = added h

module _ (k : Kernel) (s : St Globals) where
  -- One range is registered, and the cdevs of the first `n` devices have been added.
  abbrev pub added_by : ℕ → (major : ℤ) → List ℕ
  added_by zero major = added s.history
  added_by (suc n) major = k.mkdev major (pos n) ∷ added_by n major

  abbrev pub Stage : ℕ → St Globals → Type 0
  Stage n t =
      (registered t.history
        ≡ (k.mkdev t.globals.numdev_major t.globals.numdev_minor, 2) ∷ registered s.history)
      × (added t.history ≡ added_by n t.globals.numdev_major)
      × (t.globals.numdev_minor ≡ s.globals.numdev_minor)

  abbrev Prepared : Bool → St Globals → Type 0
  Prepared there t = if there then Stage 0 t else Unit

  module _ (law : NumbersAgree k s.globals.numdev_minor) where
    prepare-Stage : After Prepared NoBuffer (prepare k (pure tt) s)
    unfolding prepare
    prepare-Stage = ground (arith, law s.tick)

    prepare-create_class-Stage : After Prepared NoBuffer (prepare k (create_class k) s)
    unfolding prepare create_class
    prepare-create_class-Stage = ground (arith, law s.tick)

  devices-Stage :
      (body : ℕ → M Globals (Unit {0}))
      → ((i : ℕ) (t : St Globals) → Stage i t → After (λ _ u. Stage (suc i) u) NoBuffer (body i t))
      → (t : St Globals) → Stage 0 t
      → After (λ _ u. Stage 2 u) NoBuffer (for_range device_minor_num 0 body t)
  devices-Stage body step t h =
      After-bind _ _ NoBuffer (body 0 t) _ (step 0 t h)
        (λ _ u g. After-bind _ _ NoBuffer (body 1 u) _ (step 1 u g) (λ _ v f. f))

  setup_device-Stage :
      (i : ℕ) (t : St Globals)
      → Stage i t
      → After (λ _ u. Stage (suc i) u) NoBuffer (setup_device k i t)
  unfolding setup_device
  setup_device-Stage i t h = ground (arith, h)

  setup_node-Stage :
      (i : ℕ) (t : St Globals)
      → Stage i t
      → After (λ _ u. Stage (suc i) u) NoBuffer (setup_node k i t)
  unfolding setup_node
  setup_node-Stage i t h = ground (arith, h)

  -- What a load has done by the time that it returns 0.
  abbrev pub Loaded : ℤ → St Globals → Type 0
  Loaded n t = if is_zero n then Stage 2 t else Unit

  configure_pins-Loaded : (t : St Globals) → Stage 2 t → After Loaded NoBuffer (configure_pins k t)
  unfolding configure_pins
  configure_pins-Loaded t h = ground (arith, h)

  load_on :
      (body : ℕ → M Globals (Unit {0})) (finish : M Globals ℤ)
      → ((i : ℕ) (t : St Globals) → Stage i t → After (λ _ u. Stage (suc i) u) NoBuffer (body i t))
      → ((t : St Globals) → Stage 2 t → After Loaded NoBuffer (finish t))
      → (there : Bool) (t : St Globals) → Prepared there t
      → After Loaded NoBuffer
          ((if there then (do for_range device_minor_num 0 body; finish) else pure (negsuc 0)) t)
  load_on body finish step last false t h = h
  load_on body finish step last true t h =
      After-bind _ _ NoBuffer (for_range device_minor_num 0 body t) _ (devices-Stage body step t h)
        (λ _ u f. last u f)

abbrev pub load : Kernel → Driver → M Globals ℤ
load k regist_cdev = RegistCdev.hello_init k
load k create_char_node = CreateCharNode.hello_init k
load k char_driver = CharDriver.hello_init k
load k irq_regist = IrqRegist.hello_init k

-- A range of two numbers from `first` on.
abbrev pub is_within : (first number : ℕ) → Bool
is_within first number = leb first number && ltb number (first + device_minor_num)

module _ (k : Kernel) (s : St Globals) where
  -- By the time that the load returns 0: the range that was registered, and the numbers of the two
  -- cdevs, of which the first is in the range just for minor 0, and the second up to minor 1.
  abbrev pub Numbered : (minor : ℕ) → ℤ → St Globals → Type 0
  Numbered minor ret t =
      let number : ℕ → ℕ = λ i. k.mkdev t.globals.numdev_major (pos i) in
      if is_zero ret
      then (registered t.history ≡ (number minor, 2) ∷ registered s.history)
        × (added t.history ≡ number 1 ∷ number 0 ∷ added s.history)
        × (is_within (number minor) (number 0) ≡ (minor == 0))
        × (is_within (number minor) (number 1) ≡ leb minor 1)
      else Unit

module _ (k : Kernel) (s : St Globals) (law : NumbersAgree k s.globals.numdev_minor) where
  load-Loaded : (d : Driver) → After (Loaded k s) NoBuffer (load k d s)
  unfolding RegistCdev.hello_init CreateCharNode.hello_init CharDriver.hello_init
      IrqRegist.hello_init
  load-Loaded regist_cdev =
      After-bind _ _ NoBuffer (prepare k (pure tt) s) _ (prepare-Stage k s law)
        (load_on k s (setup_device k) _ (setup_device-Stage k s) (λ t h. h))
  load-Loaded create_char_node =
      After-bind _ _ NoBuffer (prepare k (create_class k) s) _ (prepare-create_class-Stage k s law)
        (load_on k s (setup_node k) _ (setup_node-Stage k s) (λ t h. h))
  load-Loaded char_driver =
      After-bind _ _ NoBuffer (prepare k (create_class k) s) _ (prepare-create_class-Stage k s law)
        (load_on k s (setup_node k) _ (setup_node-Stage k s) (λ t h. h))
  load-Loaded irq_regist =
      After-bind _ _ NoBuffer (prepare k (create_class k) s) _ (prepare-create_class-Stage k s law)
        (load_on k s (setup_node k) _ (setup_node-Stage k s) (configure_pins-Loaded k s))

  -- Let the kernel's macros put together the numbers that they take apart, and minor numbers
  -- below 2^20 be added to the number for minor 0. When moduleRegistCdev, moduleCreateCharNode,
  -- moduleCharDriver or moduleIrqRegist is loaded with a minor number from 0 to 2^20 - 1 and the
  -- load returns 0, the kernel granted one range, which is of two numbers, from the given minor
  -- on, and cdevs were added, or refused, for the minors 0 and 1: the number of the first lies in
  -- the range just if the given minor is 0, and that of the second just if it is at most 1. The
  -- only access through NULL is to a data buffer, right after its allocation failed.
  pub load-Numbered :
      (d : Driver) (minor : ℕ)
      → s.globals.numdev_minor ≡ pos minor
      → minor < 2 ^ 20
      → ((major : ℤ) (i : ℕ) → i < 2 ^ 20 → k.mkdev major (pos i) ≡ k.mkdev major (pos 0) + i)
      → After (Numbered k s minor) NoBuffer (load k d s)
  load-Numbered d minor e lt linear =
      After-mono (Loaded k s) (Numbered k s minor) NoBuffer (load k d s) (load-Loaded d) (λ ret t h.
        ground (
          arith,
          h,
          e,
          lt,
          linear t.globals.numdev_major minor lt,
          linear t.globals.numdev_major 1 (omega arith),
        ))
