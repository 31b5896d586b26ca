-- ===== src/Chrdev/CharDriver/Ready.antt =====
-- What the handlers of moduleCharDriver find after a load that returned 0.
use driver_module_test.Prelude.{
  ℕ, pos, ◌≡◌, ◌≢◌, arith, true, false, refl, sym, ap, ◌∙◌, Bool, negsuc, if◌then◌else◌,
}
use driver_module_test.Kernel.{Kernel, St, pure, ◌>>◌}
use driver_module_test.Kernel.Loops.{for_range}
use driver_module_test.Kernel.After.{After, After-bind}
use driver_module_test.Chrdev.{Globals, prepare, create_class, setup_node, device_minor_num}
use driver_module_test.Chrdev.Steps.{NoBuffer, Keeps}
use driver_module_test.Chrdev.CharDriver.{hello_init}
use driver_module_test.Chrdev.CharDriver.Transfer.{IsLoaded}

module _ (k : Kernel) where
  prepare-array :
      (s : St Globals)
      → After
          (λ there t. there ≡ true → t.globals.my_devices ≢ 0)
          NoBuffer
          (prepare k (create_class k) s)
  unfolding prepare create_class
  prepare-array s = ground arith

  setup_node-buffer :
      (i : ℕ) (s : St Globals)
      → After
          (λ _ t. Keeps i s.globals t.globals × (t.globals.data_of i ≢ 0))
          NoBuffer
          (setup_node k i s)
  unfolding setup_node
  setup_node-buffer i s = ground arith

  nodes-IsLoaded :
      (s : St Globals)
      → s.globals.my_devices ≢ 0
      → After (λ _ t. IsLoaded t.globals) NoBuffer (for_range device_minor_num 0 (setup_node k) s)
  nodes-IsLoaded s there =
      After-bind _ _ NoBuffer (setup_node k 0 s) _ (setup_node-buffer 0 s) (λ _ t first.
        After-bind _ _ NoBuffer (setup_node k 1 t) _ (setup_node-buffer 1 t) (λ _ u second. record {
          array = λ e. there (sym (second.0.3 ∙ first.0.3) ∙ e);
          buffer = λ e. first.1 (sym (ap (λ f. f 0) second.0.4) ∙ e);
        }))

  loop-IsLoaded :
      (there : Bool) (t : St Globals)
      → (there ≡ true → t.globals.my_devices ≢ 0)
      → After
          (λ n u. n ≡ pos 0 → IsLoaded u.globals)
          NoBuffer
          ((if there
              then (do for_range device_minor_num 0 (setup_node k); pure (pos 0))
              else pure (negsuc 0))
            t)
  loop-IsLoaded true t array =
      After-bind _ _ NoBuffer (for_range device_minor_num 0 (setup_node k) t) _
        (nodes-IsLoaded t (array refl)) (λ _ u loaded _. loaded)
  loop-IsLoaded false t array = λ e. ground (arith, e)

  pub hello_init-IsLoaded :
      (s : St Globals) → After (λ n t. n ≡ pos 0 → IsLoaded t.globals) NoBuffer (hello_init k s)
  unfolding hello_init
  hello_init-IsLoaded s =
      After-bind _ _ NoBuffer (prepare k (create_class k) s) _ (prepare-array s) loop-IsLoaded
