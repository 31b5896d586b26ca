-- ===== src/Kernel/Moments.antt =====
-- What holds at every moment of a history of calls.
use driver_module_test.Prelude.{ℕ, ◌≤◌, ◌≡◌, ◌⊎◌, true, List, [], ◌∷◌}
use driver_module_test.Kernel.{Event, Kernel, St}
use driver_module_test.Kernel.Held.{Resource, held}

abbrev pub Always : (List Event → Type 0) → List Event → Type 0
Always P [] = P []
Always P (e ∷ h) = P (e ∷ h) × Always P h

-- The kernel does not use the cdev, or the memory that it lies in is allocated.
abbrev pub IsBacked : (base i : ℕ) → List Event → Type 0
IsBacked base i h = (held (Resource.cdev base i) h ≡ 0) ⊎ (1 ≤ held (Resource.memory base) h)

-- There is no node of this class and number, or the class is there.
abbrev pub IsClassed : (cls dev : ℕ) → List Event → Type 0
IsClassed cls dev h =
    (held (Resource.node cls dev) h ≡ 0) ⊎ (1 ≤ held (Resource.device_class cls) h)

-- The kernel makes no node for a class that it refused.
abbrev pub NeedsClass : Kernel → Type 0
NeedsClass k = (t cls dev : ℕ) → k.is_err cls ≡ true → k.is_err (k.device_create t cls dev) ≡ true

-- What the cdev and the node need was there at every moment that they were in use.
abbrev pub IsOrdered : {G : Type 0} → (base i cls dev : ℕ) → St G → Type 0
IsOrdered base i cls dev t =
    Always (IsBacked base i) t.history × Always (IsClassed cls dev) t.history
