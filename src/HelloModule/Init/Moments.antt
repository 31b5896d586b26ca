-- ===== src/HelloModule/Init/Moments.antt =====
-- The cdev of moduleUbuntuTest, from moment to moment.
use driver_module_test.Prelude.{
  ℕ, suc, ◌+◌, pos, ◌≤◌, is_neg, ◌≡◌, ◌≢◌, arith, Bool, true, false, if◌then◌else◌,
}
use driver_module_test.Kernel.{Kernel, St, pure, ◌>>◌}
use driver_module_test.Kernel.Held.{Resource, held}
use driver_module_test.Kernel.After.{After, After-both, After-bind}
use driver_module_test.Kernel.Moments.{Always, IsBacked, IsClassed, IsOrdered, NeedsClass}
use driver_module_test.HelloModule.{MyDev}
use driver_module_test.HelloModule.Init.{init_my_dev, hello_init, hello_exit}
use driver_module_test.HelloModule.Init.Release.{hello_life}

module _ (k : Kernel) (base i : ℕ) where
  abbrev Backed : St MyDev → Type 0
  Backed t = Always (IsBacked base i) t.history

  -- Before the cdev is added.
  abbrev Early : St MyDev → Type 0
  Early t =
      Backed t
      × (held (Resource.cdev base i) t.history ≡ 0)
      × (t.globals.my_dev ≢ 0 → 1 ≤ held (Resource.memory t.globals.my_dev) t.history)

  -- After it is.
  abbrev Late : St MyDev → Type 0
  Late t =
      Backed t
      × (held (Resource.cdev base i) t.history ≤ 1)
      × (held (Resource.cdev base i) t.history ≢ 0 → (base ≡ t.globals.my_dev) × (i ≡ 0))

  init_my_dev-Early :
      (s : St MyDev)
      → Backed s
      → held (Resource.cdev base i) s.history ≡ 0
      → After (λ _ t. Early t) Backed (init_my_dev k s)
  unfolding init_my_dev
  init_my_dev-Early s h none = ground arith

  hello_init-Late :
      (s : St MyDev)
      → Backed s
      → held (Resource.cdev base i) s.history ≡ 0
      → After (λ _ t. Late t) Backed (hello_init k s)
  unfolding hello_init
  hello_init-Late s h none =
      After-bind (λ _ t. Early t) _ Backed (init_my_dev k s) _ (init_my_dev-Early s h none)
        (λ _ t e. ground (arith, e))

  hello_exit-Backed : (s : St MyDev) → Late s → After (λ _ t. Backed t) Backed (hello_exit k s)
  unfolding hello_exit
  hello_exit-Backed s h = ground (arith, h)

  unload-Backed :
      (refused : Bool) (t : St MyDev)
      → Late t
      → After
          (λ _ u. Backed u)
          Backed
          ((if refused then pure false else (do hello_exit k; pure true)) t)
  unload-Backed true t h = h.0
  unload-Backed false t h =
      After-bind _ _ Backed (hello_exit k t) _ (hello_exit-Backed t h) (λ _ u b. b)

  -- Let a given cdev not be in use, and at every moment before have lain in allocated memory
  -- while it was. When moduleUbuntuTest is loaded, and unloaded again if the load returned 0,
  -- then the same is true at every moment of this, whatever the kernel refuses and even where a
  -- NULL access ends it.
  hello_life-Backed :
      (s : St MyDev)
      → Always (IsBacked base i) s.history
      → held (Resource.cdev base i) s.history ≡ 0
      → After
          (λ _ t. Always (IsBacked base i) t.history)
          (λ t. Always (IsBacked base i) t.history)
          (hello_life k s)
  hello_life-Backed s h none =
      After-bind (λ _ t. Late t) _ Backed (hello_init k s) _ (hello_init-Late s h none)
        (λ n t. unload-Backed (is_neg n) t)

module _ (k : Kernel) (cls dev : ℕ) where
  abbrev Classed : St MyDev → Type 0
  Classed t = Always (IsClassed cls dev) t.history

  -- Before the node is made.
  abbrev NoNode : St MyDev → Type 0
  NoNode t = Classed t × (held (Resource.node cls dev) t.history ≡ 0)

  -- After it is.
  abbrev OneNode : St MyDev → Type 0
  OneNode t =
      Classed t
      × (held (Resource.node cls dev) t.history ≤ 1)
      × (held (Resource.node cls dev) t.history ≢ 0
          → (cls ≡ t.globals.my_device_class)
            × (dev ≡ t.globals.cdev_dev)
            × (1 ≤ held (Resource.device_class cls) t.history))

  init_my_dev-NoNode : (s : St MyDev) → NoNode s → After (λ _ t. NoNode t) Classed (init_my_dev k s)
  unfolding init_my_dev
  init_my_dev-NoNode s h = ground (arith, h)

  hello_init-OneNode :
      NeedsClass k → (s : St MyDev) → NoNode s → After (λ _ t. OneNode t) Classed (hello_init k s)
  unfolding hello_init
  hello_init-OneNode law s h =
      After-bind (λ _ t. NoNode t) _ Classed (init_my_dev k s) _ (init_my_dev-NoNode s h)
        (λ _ t e.
          let c = k.class_create (suc t.tick) in
          let refused = is_neg (k.alloc_chrdev_region t.tick (pos 0) 1) in
          let num_dev = if refused then 0 else k.allocated_dev t.tick in
          ground (arith, e, law (4 + t.tick) c (k.mkdev (k.major num_dev) (pos 0))))

  hello_exit-Classed :
      (s : St MyDev) → OneNode s → After (λ _ t. Classed t) Classed (hello_exit k s)
  unfolding hello_exit
  hello_exit-Classed s h = ground (arith, h)

  unload-Classed :
      (refused : Bool) (t : St MyDev)
      → OneNode t
      → After
          (λ _ u. Classed u)
          Classed
          ((if refused then pure false else (do hello_exit k; pure true)) t)
  unload-Classed true t h = h.0
  unload-Classed false t h =
      After-bind _ _ Classed (hello_exit k t) _ (hello_exit-Classed t h) (λ _ u b. b)

  hello_life-Classed :
      NeedsClass k → (s : St MyDev) → NoNode s → After (λ _ t. Classed t) Classed (hello_life k s)
  hello_life-Classed law s h =
      After-bind (λ _ t. OneNode t) _ Classed (hello_init k s) _ (hello_init-OneNode law s h)
        (λ n t. unload-Classed (is_neg n) t)

module _ (k : Kernel) (law : NeedsClass k) (base i cls dev : ℕ) where
  -- Let the kernel make no node for a class that it refused. Let a given cdev and a given node
  -- not be in use, and at every moment before have been in use only while the memory that the
  -- cdev lies in, and the node's class, were there. When moduleUbuntuTest is loaded, and unloaded
  -- again if the load returned 0, then the same is true at every moment of this, whatever the
  -- kernel refuses and even where a NULL access ends it: no memory is freed under a cdev, and no
  -- class is destroyed under a node.
  pub hello_life-IsOrdered :
      (s : St MyDev)
      → IsOrdered base i cls dev s
      → held (Resource.cdev base i) s.history ≡ 0
      → held (Resource.node cls dev) s.history ≡ 0
      → After (λ _ t. IsOrdered base i cls dev t) (IsOrdered base i cls dev) (hello_life k s)
  hello_life-IsOrdered s h no_cdev no_node =
      After-both _ _ _ _ (hello_life k s) (hello_life-Backed k base i s h.0 no_cdev)
        (hello_life-Classed k cls dev law s (h.1, no_node))
