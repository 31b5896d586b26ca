-- ===== src/Chrdev/IrqRegist/Moments.antt =====
-- The cdevs of moduleIrqRegist, from moment to moment.
use driver_module_test.Prelude.{ℕ, ◌≡◌, arith}
use driver_module_test.Kernel.{Kernel, St}
use driver_module_test.Kernel.Held.{Resource, held}
use driver_module_test.Kernel.After.{After}
use driver_module_test.Kernel.Moments.{Always, IsBacked, IsClassed, NeedsClass}
use driver_module_test.Chrdev.{Globals, device_minor_num, create_class, setup_node}
use driver_module_test.Chrdev.Life.{load_unload}
use driver_module_test.Chrdev.Moments.{
  Backed, Builds, prepare-create_class-Builds, setup_node-Builds,
}
use driver_module_test.Chrdev.Nodes.{Classed, Nodes, prepare-Nodes, setup_node-Nodes}
use driver_module_test.Chrdev.Stages.{IsLate, load_unload-Holds}
use driver_module_test.Chrdev.IrqRegist.{configure_pins, hello_init, hello_exit}

module _ (k : Kernel) (base i : ℕ) where
  configure_pins-IsLate :
      (t : St Globals)
      → Builds k base i device_minor_num t
      → After
          (IsLate k (Backed k base i) (Builds k base i) (λ n t b. b.0))
          (Backed k base i)
          (configure_pins k t)
  unfolding configure_pins
  configure_pins-IsLate t h = ground (arith, h)

  hello_exit-Backed :
      (t : St Globals)
      → Builds k base i device_minor_num t
      → After (λ _ u. Backed k base i u) (Backed k base i) (hello_exit k t)
  unfolding hello_exit
  hello_exit-Backed t h = ground (arith, h)

  pub pins_life-Always :
      (s : St Globals)
      → Always (IsBacked base i) s.history
      → held (Resource.cdev base i) s.history ≡ 0
      → After
          (λ _ t. Always (IsBacked base i) t.history)
          (λ t. Always (IsBacked base i) t.history)
          (load_unload (hello_init k) (hello_exit k) s)
  unfolding hello_init
  pins_life-Always s h none =
      load_unload-Holds k (Backed k base i) (Builds k base i) (λ n t b. b.0) (create_class k)
        (setup_node k) (configure_pins k) (hello_exit k) s
        (prepare-create_class-Builds k base i s h none) (setup_node-Builds k base i)
        configure_pins-IsLate hello_exit-Backed

module _ (k : Kernel) (cls dev : ℕ) where
  configure_pins-Nodes :
      (t : St Globals)
      → Nodes k cls dev device_minor_num t
      → After
          (IsLate k (Classed k cls dev) (Nodes k cls dev) (λ n t b. b.0))
          (Classed k cls dev)
          (configure_pins k t)
  unfolding configure_pins
  configure_pins-Nodes t h = ground (arith, h)

  hello_exit-Classed :
      (t : St Globals)
      → Nodes k cls dev device_minor_num t
      → After (λ _ u. Classed k cls dev u) (Classed k cls dev) (hello_exit k t)
  unfolding hello_exit
  hello_exit-Classed t h = ground (arith, h)

  pub pins_life-Classed :
      (s : St Globals)
      → NeedsClass k
      → Always (IsClassed cls dev) s.history
      → held (Resource.node cls dev) s.history ≡ 0
      → After
          (λ _ t. Always (IsClassed cls dev) t.history)
          (λ t. Always (IsClassed cls dev) t.history)
          (load_unload (hello_init k) (hello_exit k) s)
  unfolding hello_init
  pins_life-Classed s law h none =
      load_unload-Holds k (Classed k cls dev) (Nodes k cls dev) (λ n t b. b.0) (create_class k)
        (setup_node k) (configure_pins k) (hello_exit k) s (prepare-Nodes k cls dev s h none)
        (setup_node-Nodes k cls dev law) configure_pins-Nodes hello_exit-Classed
