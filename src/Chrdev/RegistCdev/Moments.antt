-- ===== src/Chrdev/RegistCdev/Moments.antt =====
-- The cdevs of moduleRegistCdev, from moment to moment.
use driver_module_test.Prelude.{suc, if◌then◌else◌, ℕ, ◌≡◌, pos, arith}
use driver_module_test.Kernel.{Kernel, St, pure}
use driver_module_test.Kernel.Held.{Resource, held}
use driver_module_test.Kernel.After.{After}
use driver_module_test.Kernel.Moments.{Always, IsBacked, IsClassed}
use driver_module_test.Chrdev.{prepare, Globals, device_minor_num, setup_device}
use driver_module_test.Chrdev.Life.{load_unload}
use driver_module_test.Chrdev.Moments.{Backed, Builds, prepare-Builds, setup_device-Builds}
use driver_module_test.Chrdev.Nodes.{Classed}
use driver_module_test.Chrdev.Stages.{done-IsLate, load_unload-Holds}
use driver_module_test.Chrdev.RegistCdev.{hello_init, hello_exit}

module _ (k : Kernel) (base i : ℕ) where
  hello_exit-Backed :
      (t : St Globals)
      → Builds k base i device_minor_num t
      → After (λ _ u. Backed k base i u) (Backed k base i) (hello_exit k t)
  unfolding hello_exit
  hello_exit-Backed t h = ground (arith, h)

  pub cdev_life-Always :
      (s : St Globals)
      → Always (IsBacked base i) s.history
      → held (Resource.cdev base i) s.history ≡ 0
      → After
          (λ _ t. Always (IsBacked base i) t.history)
          (λ t. Always (IsBacked base i) t.history)
          (load_unload (hello_init k) (hello_exit k) s)
  unfolding hello_init
  cdev_life-Always s h none =
      load_unload-Holds k (Backed k base i) (Builds k base i) (λ n t b. b.0) (pure tt)
        (setup_device k) (pure (pos 0)) (hello_exit k) s (prepare-Builds k base i s h none)
        (setup_device-Builds k base i)
        (done-IsLate k (Backed k base i) (Builds k base i) (λ n t b. b.0)) hello_exit-Backed

module _ (k : Kernel) (cls dev : ℕ) where
  -- There is no node at all.
  abbrev NoNode : ℕ → St Globals → Type 0
  NoNode n t = Classed k cls dev t × (held (Resource.node cls dev) t.history ≡ 0)

  setup_device-NoNode :
      (n : ℕ) (s : St Globals)
      → NoNode n s
      → After (λ _ t. NoNode (suc n) t) (Classed k cls dev) (setup_device k n s)
  unfolding setup_device
  setup_device-NoNode n s h = ground (arith, h)

  prepare-NoNode :
      (s : St Globals)
      → NoNode 0 s
      → After
          (λ there t. if there then NoNode 0 t else Classed k cls dev t)
          (Classed k cls dev)
          (prepare k (pure tt) s)
  unfolding prepare
  prepare-NoNode s h = ground (arith, h)

  hello_exit-Classed :
      (t : St Globals)
      → NoNode device_minor_num t
      → After (λ _ u. Classed k cls dev u) (Classed k cls dev) (hello_exit k t)
  unfolding hello_exit
  hello_exit-Classed t h = ground (arith, h)

  pub cdev_life-Classed :
      (s : St Globals)
      → Always (IsClassed cls dev) s.history
      → held (Resource.node cls dev) s.history ≡ 0
      → After
          (λ _ t. Always (IsClassed cls dev) t.history)
          (λ t. Always (IsClassed cls dev) t.history)
          (load_unload (hello_init k) (hello_exit k) s)
  unfolding hello_init
  cdev_life-Classed s h none =
      load_unload-Holds k (Classed k cls dev) NoNode (λ n t b. b.0) (pure tt) (setup_device k)
        (pure (pos 0)) (hello_exit k) s (prepare-NoNode s (h, none)) setup_device-NoNode
        (done-IsLate k (Classed k cls dev) NoNode (λ n t b. b.0)) hello_exit-Classed
