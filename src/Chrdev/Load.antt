-- ===== src/Chrdev/Load.antt =====
-- What a character driver owns once it is loaded, and the steps that lead there.
use driver_module_test.Prelude.{
  ℕ, ◌+◌, refl, ℤ, pos, negsuc, ◌≡◌, ◌≤◌, arith, Bool, true, false, ◌&&◌, ◌==◌, if◌then◌else◌,
}
use driver_module_test.Kernel.{Kernel, St, M, pure, and_then, ◌>>◌}
use driver_module_test.Kernel.Held.{Resource, held}
use driver_module_test.Kernel.After.{After, After-bind}
use driver_module_test.Chrdev.{Globals, device_minor_num, create_class, prepare}
use driver_module_test.Chrdev.Steps.{bit, NoBuffer, NumbersAgree}
use driver_module_test.Chrdev.Steps.Pair.{is_node, KeepsNumbers, GainsBoth}

-- After a load that failed: nothing but, where the driver makes one, the class.
abbrev pub Leaves : (classes : Bool) → St Globals → St Globals → Resource → Type 0
Leaves classes s t (Resource.device_class c) =
    held (Resource.device_class c) t.history
    ≤ held (Resource.device_class c) s.history + bit (classes && c == t.globals.my_device_class)
Leaves classes s t r = held r t.history ≡ held r s.history

module _ (k : Kernel) where
  abbrev pub is_region : Globals → (d n : ℕ) → Bool
  is_region g d n = d == k.mkdev g.numdev_major g.numdev_minor && n == device_minor_num

  -- The numbers, the array with both buffers, and those of the class (if the driver makes one), the
  -- cdevs and the nodes (if it makes them) that the kernel did not refuse.
  abbrev pub Owns : (classes nodes : Bool) → St Globals → St Globals → Resource → Type 0
  Owns classes nodes s t (Resource.memory a) =
      held (Resource.memory a) t.history
      ≡ held (Resource.memory a) s.history
        + bit (a == t.globals.my_devices)
        + bit (a == t.globals.data_of 0)
        + bit (a == t.globals.data_of 1)
  Owns classes nodes s t (Resource.region d n) =
      held (Resource.region d n) t.history
      ≡ held (Resource.region d n) s.history + bit (is_region t.globals d n)
  Owns classes nodes s t (Resource.device_class c) =
      held (Resource.device_class c) t.history
      ≤ held (Resource.device_class c) s.history + bit (classes && c == t.globals.my_device_class)
  Owns classes nodes s t (Resource.cdev b j) =
      held (Resource.cdev b j) t.history
      ≤ held (Resource.cdev b j) s.history
        + bit (b == t.globals.my_devices && j == 0)
        + bit (b == t.globals.my_devices && j == 1)
  Owns classes nodes s t (Resource.node c d) =
      held (Resource.node c d) t.history
      ≤ held (Resource.node c d) s.history
        + bit (is_node k nodes 0 t c d)
        + bit (is_node k nodes 1 t c d)
  Owns classes nodes s t r = held r t.history ≡ held r s.history

  -- The array is there, and was the last thing to be acquired; or it is not, and the numbers are
  -- given back.
  abbrev pub HasArray : (classes : Bool) → St Globals → Bool → St Globals → Resource → Type 0
  HasArray classes s false t r = Leaves classes s t r
  HasArray classes s true t (Resource.memory a) =
      held (Resource.memory a) t.history
      ≡ held (Resource.memory a) s.history + bit (a == t.globals.my_devices)
  HasArray classes s true t (Resource.region d n) =
      held (Resource.region d n) t.history
      ≡ held (Resource.region d n) s.history + bit (is_region t.globals d n)
  HasArray classes s true t (Resource.device_class c) =
      held (Resource.device_class c) t.history
      ≤ held (Resource.device_class c) s.history + bit (classes && c == t.globals.my_device_class)
  HasArray classes s true t r = held r t.history ≡ held r s.history

  abbrev pub Loads : (classes nodes : Bool) → St Globals → ℤ → St Globals → Resource → Type 0
  Loads classes nodes s (pos n) t r = (n ≡ 0) × Owns classes nodes s t r
  Loads classes nodes s (negsuc n) t r = (n ≡ 0) × Leaves classes s t r

  pub Owns-GainsBoth :
      (classes nodes : Bool) (s t u : St Globals) (r : Resource)
      → HasArray classes s true t r
      → KeepsNumbers t.globals u.globals × GainsBoth k nodes t u r
      → Owns classes nodes s u r
  Owns-GainsBoth classes nodes s t u (Resource.memory a) h g = ground arith
  Owns-GainsBoth classes nodes s t u _ h g = ground arith

  module _ (s : St Globals) (law : NumbersAgree k s.globals.numdev_minor) where
    pub prepare-HasArray :
        (r : Resource)
        → After (λ there t. HasArray false s there t r) NoBuffer (prepare k (pure tt) s)
    unfolding prepare
    prepare-HasArray (Resource.memory a) = ground arith
    prepare-HasArray (Resource.region d n) = ground (arith, law s.tick)
    prepare-HasArray _ = ground arith

    pub prepare-create_class-HasArray :
        (r : Resource)
        → After (λ there t. HasArray true s there t r) NoBuffer (prepare k (create_class k) s)
    unfolding prepare create_class
    prepare-create_class-HasArray (Resource.memory a) = ground arith
    prepare-create_class-HasArray (Resource.region d n) = ground (arith, law s.tick)
    prepare-create_class-HasArray _ = ground arith

    module _ (classes nodes : Bool) (make_class body_loop : M Globals (Unit {0}))
        (prepared : (r : Resource)
          → After (λ there t. HasArray classes s there t r) NoBuffer (prepare k make_class s))
        (looped : (t : St Globals) (r : Resource)
          → After
              (λ _ u. KeepsNumbers t.globals u.globals × GainsBoth k nodes t u r)
              NoBuffer
              (body_loop t)) where
      abbrev devices_then : Bool → M Globals ℤ
      devices_then there = if there then (body_loop >> pure (pos 0)) else pure (negsuc 0)

      devices-Loads :
          (r : Resource) (there : Bool) (t : St Globals)
          → HasArray classes s there t r
          → After (λ n u. Loads classes nodes s n u r) NoBuffer (devices_then there t)
      devices-Loads r false t h = (refl, h)
      devices-Loads r true t h =
          After-bind (λ _ u. KeepsNumbers t.globals u.globals × GainsBoth k nodes t u r) _ NoBuffer
            (body_loop t) _ (looped t r) (λ _ u g. (refl, Owns-GainsBoth classes nodes s t u r h g))

      pub load-Loads :
          (r : Resource)
          → After
              (λ n u. Loads classes nodes s n u r)
              NoBuffer
              (and_then (prepare k make_class s) devices_then)
      load-Loads r =
          After-bind (λ there t. HasArray classes s there t r) _ NoBuffer (prepare k make_class s) _
            (prepared r) (devices-Loads r)
