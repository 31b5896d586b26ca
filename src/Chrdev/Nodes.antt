-- ===== src/Chrdev/Nodes.antt =====
-- The nodes of the character drivers and their class, from moment to moment.
use driver_module_test.Prelude.{
  ℕ, zero, suc, ◌+◌, ℤ, pos, ◌≤◌, ◌≡◌, ◌⊎◌, arith, true, ◌==◌, if◌then◌else◌,
}
use driver_module_test.Kernel.{Kernel, St}
use driver_module_test.Kernel.Held.{Resource, held}
use driver_module_test.Kernel.After.{After}
use driver_module_test.Kernel.Moments.{Always, IsClassed, NeedsClass}
use driver_module_test.Chrdev.{Globals, create_class, prepare, setup_node}
use driver_module_test.Chrdev.Steps.{bit}

module _ (k : Kernel) (cls dev : ℕ) where
  abbrev pub Classed : St Globals → Type 0
  Classed t = Always (IsClassed cls dev) t.history

  -- How many of the devices below `n` have this number.
  abbrev pub nodes_below : ℕ → (major : ℤ) → ℕ
  nodes_below zero major = 0
  nodes_below (suc n) major = nodes_below n major + bit (dev == k.mkdev major (pos n))

  abbrev pub Nodes : (n : ℕ) → St Globals → Type 0
  Nodes n t =
      Classed t
      × ((k.is_err t.globals.my_device_class ≡ true)
          ⊎ (1 ≤ held (Resource.device_class t.globals.my_device_class) t.history))
      × ((held (Resource.node cls dev) t.history ≡ 0)
          ⊎ ((cls ≡ t.globals.my_device_class)
              × (1 ≤ held (Resource.device_class cls) t.history)
              × (held (Resource.node cls dev) t.history ≤ nodes_below n t.globals.numdev_major)))

  module _ (s : St Globals) (h : Classed s)
      (none : held (Resource.node cls dev) s.history ≡ 0) where
    pub prepare-Nodes :
        After
          (λ there t. if there then Nodes 0 t else Classed t)
          Classed
          (prepare k (create_class k) s)
    unfolding prepare create_class
    prepare-Nodes = ground arith

  pub setup_node-Nodes :
      NeedsClass k
      → (n : ℕ) (s : St Globals) → Nodes n s
      → After (λ _ t. Nodes (suc n) t) Classed (setup_node k n s)
  unfolding setup_node
  setup_node-Nodes law n s h = ground (
    arith,
    h,
    law (3 + s.tick) s.globals.my_device_class (k.mkdev s.globals.numdev_major (pos n)),
  )
