-- ===== src/Chrdev/Moments.antt =====
-- The cdevs of the character drivers, from moment to moment.
use driver_module_test.Prelude.{ℕ, suc, ◌≤◌, ◌≡◌, ◌⊎◌, arith, Bool, if◌then◌else◌}
use driver_module_test.Kernel.{Kernel, St, pure}
use driver_module_test.Kernel.Held.{Resource, held}
use driver_module_test.Kernel.After.{After}
use driver_module_test.Kernel.Moments.{Always, IsBacked}
use driver_module_test.Chrdev.{Globals, create_class, prepare, setup_device, setup_node}

module _ (k : Kernel) (base i : ℕ) where
  abbrev pub Backed : St Globals → Type 0
  Backed t = Always (IsBacked base i) t.history

  -- The devices below `n` may have their cdev.
  abbrev pub Builds : (n : ℕ) → St Globals → Type 0
  Builds n t =
      Backed t
      × (1 ≤ held (Resource.memory t.globals.my_devices) t.history)
      × ((held (Resource.cdev base i) t.history ≡ 0)
          ⊎ ((held (Resource.cdev base i) t.history ≡ 1)
              × (base ≡ t.globals.my_devices)
              × (suc i ≤ n)))

  module _ (s : St Globals) (h : Backed s) (none : held (Resource.cdev base i) s.history ≡ 0) where
    abbrev pub HasArray : Bool → St Globals → Type 0
    HasArray there t = if there then Builds 0 t else Backed t

    pub prepare-Builds : After HasArray Backed (prepare k (pure tt) s)
    unfolding prepare
    prepare-Builds = ground arith

    pub prepare-create_class-Builds : After HasArray Backed (prepare k (create_class k) s)
    unfolding prepare create_class
    prepare-create_class-Builds = ground arith

  pub setup_device-Builds :
      (n : ℕ) (s : St Globals)
      → Builds n s
      → After (λ _ t. Builds (suc n) t) Backed (setup_device k n s)
  unfolding setup_device
  setup_device-Builds n s h = ground (arith, h)

  pub setup_node-Builds :
      (n : ℕ) (s : St Globals)
      → Builds n s
      → After (λ _ t. Builds (suc n) t) Backed (setup_node k n s)
  unfolding setup_node
  setup_node-Builds n s h = ground (arith, h)
