-- ===== src/Chrdev/Steps/Pair.antt =====
-- What the loop over both devices acquires.
use driver_module_test.Prelude.{ℕ, ◌+◌, pos, ◌≡◌, ◌≤◌, arith, Bool, ◌&&◌, ◌==◌, ap}
use driver_module_test.Kernel.{Kernel, St, M}
use driver_module_test.Kernel.Held.{Resource, held}
use driver_module_test.Kernel.Loops.{for_range}
use driver_module_test.Kernel.After.{After, After-and, After-bind}
use driver_module_test.Chrdev.{Globals, device_minor_num}
use driver_module_test.Chrdev.Steps.{bit, NoBuffer, Keeps, Gains}

abbrev pub KeepsNumbers : Globals → Globals → Type 0
KeepsNumbers g h =
    (h.numdev_major ≡ g.numdev_major)
    × (h.numdev_minor ≡ g.numdev_minor)
    × (h.my_device_class ≡ g.my_device_class)
    × (h.my_devices ≡ g.my_devices)

module _ (k : Kernel) (nodes : Bool) where
  -- The node of device `i`, made in state `s`.
  abbrev pub is_node : ℕ → St Globals → (c d : ℕ) → Bool
  is_node i s c d =
      nodes && (c == s.globals.my_device_class && d == k.mkdev s.globals.numdev_major (pos i))

  abbrev pub GainsBoth : St Globals → St Globals → Resource → Type 0
  GainsBoth s t (Resource.memory a) =
      held (Resource.memory a) t.history
      ≡ held (Resource.memory a) s.history
        + bit (a == t.globals.data_of 0)
        + bit (a == t.globals.data_of 1)
  GainsBoth s t (Resource.cdev b j) =
      held (Resource.cdev b j) t.history
      ≤ held (Resource.cdev b j) s.history
        + bit (b == s.globals.my_devices && j == 0)
        + bit (b == s.globals.my_devices && j == 1)
  GainsBoth s t (Resource.node c d) =
      held (Resource.node c d) t.history
      ≤ held (Resource.node c d) s.history + bit (is_node 0 s c d) + bit (is_node 1 s c d)
  GainsBoth s t r = held r t.history ≡ held r s.history

  abbrev Step : ℕ → Resource → St Globals → St Globals → Type 0
  Step i r s t = Keeps i s.globals t.globals × Gains k nodes i s t r

  join :
      (r : Resource) (s t u : St Globals)
      → Step 0 r s t
      → Step 1 r t u
      → KeepsNumbers s.globals u.globals × GainsBoth s u r
  join (Resource.memory a) s t u p q = ground (arith, ap (λ f. f 0) q.0.4)
  join _ s t u p q = ground arith

  module _ (body : ℕ → M Globals (Unit {0}))
      (keeps : (i : ℕ) (s : St Globals)
        → After (λ _ t. Keeps i s.globals t.globals) NoBuffer (body i s))
      (gains : (i : ℕ) (s : St Globals) (r : Resource)
        → After (λ _ t. Gains k nodes i s t r) NoBuffer (body i s)) where
    step : (i : ℕ) (s : St Globals) (r : Resource) → After (λ _ t. Step i r s t) NoBuffer (body i s)
    step i s r = After-and _ _ NoBuffer (body i s) (keeps i s) (gains i s r)

    pub for_range-GainsBoth :
        (s : St Globals) (r : Resource)
        → After
            (λ _ t. KeepsNumbers s.globals t.globals × GainsBoth s t r)
            NoBuffer
            (for_range device_minor_num 0 body s)
    for_range-GainsBoth s r =
        After-bind (λ _ t. Step 0 r s t) _ NoBuffer (body 0 s) _ (step 0 s r)
          (λ _ t p.
            After-bind (λ _ u. Step 1 r t u) _ NoBuffer (body 1 t) _ (step 1 t r)
              (λ _ u q. join r s t u p q))
