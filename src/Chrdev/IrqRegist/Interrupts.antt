-- ===== src/Chrdev/IrqRegist/Interrupts.antt =====
-- The interrupts of moduleIrqRegist, whose requests are commented out, from a load to an unload.
use driver_module_test.Prelude.{
  ℕ, zero, suc, ◌+◌, ℤ, pos, negsuc, is_zero, ◌≡◌, arith, Bool, true, false, ◌&&◌, ◌==◌,
  if◌then◌else◌,
}
use driver_module_test.Kernel.{Kernel, St, pure, ◌>>◌}
use driver_module_test.Kernel.Held.{Resource, held, overdrawn}
use driver_module_test.Kernel.Loops.{for_range}
use driver_module_test.Kernel.After.{After, After-bind}
use driver_module_test.Chrdev.{Globals, prepare, create_class, setup_node, device_minor_num}
use driver_module_test.Chrdev.Steps.{bit, NoBuffer}
use driver_module_test.Chrdev.Life.{load_unload}
use driver_module_test.Chrdev.IrqRegist.{configure_pins, hello_init, hello_exit}

module _ (k : Kernel) (i cookie : ℕ) where
  -- The interrupt is not held, and was given back without being held `n` times.
  abbrev pub IsFreed : ℕ → St Globals → Type 0
  IsFreed n s =
      (held (Resource.irq i cookie) s.history ≡ 0)
      × (overdrawn (Resource.irq i cookie) s.history ≡ n)

  -- How often an unload gives it back.
  abbrev pub frees : St Globals → ℕ
  frees t =
      bit (k.irq_eint 9 == i && t.globals.my_devices == cookie)
      + bit (k.irq_eint 10 == i && t.globals.my_devices == cookie)

  module _ (n : ℕ) where
    prepare-IsFreed :
        (s : St Globals)
        → IsFreed n s
        → After (λ _ t. IsFreed n t) NoBuffer (prepare k (create_class k) s)
    unfolding prepare create_class
    prepare-IsFreed s h = ground (arith, h)

    setup_node-IsFreed :
        (j : ℕ) (s : St Globals)
        → IsFreed n s
        → After (λ _ t. IsFreed n t) NoBuffer (setup_node k j s)
    unfolding setup_node
    setup_node-IsFreed j s h = ground (arith, h)

    configure_pins-IsFreed :
        (s : St Globals) → IsFreed n s → After (λ _ t. IsFreed n t) NoBuffer (configure_pins k s)
    unfolding configure_pins
    configure_pins-IsFreed s h = ground (arith, h)

    hello_exit-IsFreed :
        (s : St Globals)
        → IsFreed n s
        → After (λ _ t. IsFreed (n + frees t) t) NoBuffer (hello_exit k s)
    unfolding hello_exit
    hello_exit-IsFreed s h = ground (arith, h)

    devices-IsFreed :
        (there : Bool) (s : St Globals)
        → IsFreed n s
        → After
            (λ _ t. IsFreed n t)
            NoBuffer
            ((if there
                then (for_range device_minor_num 0 (setup_node k) >> configure_pins k)
                else pure (negsuc 0))
              s)
    devices-IsFreed false s h = h
    devices-IsFreed true s h =
        After-bind _ _ NoBuffer (for_range device_minor_num 0 (setup_node k) s) _
          (After-bind _ _ NoBuffer (setup_node k 0 s) _ (setup_node-IsFreed 0 s h) (λ _ t f.
            After-bind _ _ NoBuffer (setup_node k 1 t) _ (setup_node-IsFreed 1 t f) (λ _ u g. g)))
          (λ _ t f. configure_pins-IsFreed t f)

    hello_init-IsFreed :
        (s : St Globals) → IsFreed n s → After (λ _ t. IsFreed n t) NoBuffer (hello_init k s)
    unfolding hello_init
    hello_init-IsFreed s h =
        After-bind (λ _ t. IsFreed n t) _ NoBuffer (prepare k (create_class k) s) _
          (prepare-IsFreed s h) devices-IsFreed

    unload-IsFreed :
        (ret : ℤ) (s : St Globals)
        → IsFreed n s
        → After
            (λ m t. IsFreed (n + (if is_zero m then frees t else 0)) t)
            NoBuffer
            ((if is_zero ret then (do hello_exit k; pure ret) else pure ret) s)
    unload-IsFreed (pos zero) s h =
        After-bind _ _ NoBuffer (hello_exit k s) _ (hello_exit-IsFreed s h) (λ _ t f. f)
    unload-IsFreed (pos (suc m)) s h = ground (arith, h)
    unload-IsFreed (negsuc m) s h = ground (arith, h)

    -- Where an interrupt is not held, and moduleIrqRegist is loaded, and unloaded again if the
    -- load returned 0: the interrupt is not held after. An unload gives back interrupts 9 and
    -- 10 of the board, with the array as the cookie, once each without having held them, and no
    -- other interrupt; a failed load gives back none. The only access through NULL is to a data
    -- buffer, right after its allocation failed.
    pub irq_life-IsFreed :
        (s : St Globals)
        → IsFreed n s
        → After
            (λ m t. IsFreed (n + (if is_zero m then frees t else 0)) t)
            NoBuffer
            (load_unload (hello_init k) (hello_exit k) s)
    irq_life-IsFreed s h =
        After-bind (λ _ t. IsFreed n t) _ NoBuffer (hello_init k s) _ (hello_init-IsFreed s h)
          unload-IsFreed
