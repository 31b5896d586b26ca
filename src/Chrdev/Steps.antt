-- ===== src/Chrdev/Steps.antt =====
-- What one step of a character driver acquires, and what it leaves alone.
pub mod Pair
use driver_module_test.Prelude.{
  ℕ, ◌+◌, ℤ, pos, ◌≡◌, ◌≤◌, arith, Bool, true, false, ◌&&◌, ◌==◌, List, ◌∷◌, update,
}
use driver_module_test.Kernel.{Event, Kernel, St}
use driver_module_test.Kernel.Held.{Resource, held}
use driver_module_test.Kernel.After.{After}
use driver_module_test.Chrdev.{Globals, setup_device, setup_node, reg_dev_size}

abbrev pub bit : Bool → ℕ
bit true = 1
bit false = 0

-- The last call was for a buffer, and there was no memory.
abbrev pub IsOutOfMemory : List Event → Type 0
IsOutOfMemory (Event.kmalloc n a ∷ h) = (n ≡ reg_dev_size) × (a ≡ 0)
IsOutOfMemory _ = ⊥

abbrev pub NoBuffer : St Globals → Type 0
NoBuffer s = IsOutOfMemory s.history

-- The variables after the loop's body for device `i`.
abbrev pub Keeps : ℕ → Globals → Globals → Type 0
Keeps i g h =
    (h.numdev_major ≡ g.numdev_major)
    × (h.numdev_minor ≡ g.numdev_minor)
    × (h.my_device_class ≡ g.my_device_class)
    × (h.my_devices ≡ g.my_devices)
    × (h.data_of ≡ update g.data_of i (h.data_of i))

module _ (k : Kernel) where
  -- `mkdev` puts together what `major` takes apart, for the numbers that the kernel hands out.
  abbrev pub NumbersAgree : ℤ → Type 0
  NumbersAgree minor = (i : ℕ) → k.mkdev (k.major (k.allocated_dev i)) minor ≡ k.allocated_dev i

  module _ (nodes : Bool) (i : ℕ) (s t : St Globals) where
    -- What the loop's body for device `i` acquires: its buffer, its cdev and, if the driver makes
    -- nodes, its node, the last two unless the kernel refuses.
    abbrev pub Gains : Resource → Type 0
    Gains (Resource.memory a) =
        held (Resource.memory a) t.history
        ≡ held (Resource.memory a) s.history + bit (a == t.globals.data_of i)
    Gains (Resource.cdev b j) =
        held (Resource.cdev b j) t.history
        ≤ held (Resource.cdev b j) s.history + bit (b == s.globals.my_devices && j == i)
    Gains (Resource.node c d) =
        held (Resource.node c d) t.history
        ≤ held (Resource.node c d) s.history
          + bit (
              nodes
              && (c == s.globals.my_device_class && d == k.mkdev s.globals.numdev_major (pos i)))
    Gains r = held r t.history ≡ held r s.history

  module _ (i : ℕ) (s : St Globals) where
    pub setup_device-Keeps :
        After (λ _ t. Keeps i s.globals t.globals) NoBuffer (setup_device k i s)
    unfolding setup_device
    setup_device-Keeps = ground arith

    pub setup_device-Gains :
        (r : Resource) → After (λ _ t. Gains false i s t r) NoBuffer (setup_device k i s)
    unfolding setup_device
    setup_device-Gains (Resource.memory a) = ground arith
    setup_device-Gains _ = ground arith

    pub setup_node-Keeps : After (λ _ t. Keeps i s.globals t.globals) NoBuffer (setup_node k i s)
    unfolding setup_node
    setup_node-Keeps = ground arith

    pub setup_node-Gains :
        (r : Resource) → After (λ _ t. Gains true i s t r) NoBuffer (setup_node k i s)
    unfolding setup_node
    setup_node-Gains (Resource.memory a) = ground arith
    setup_node-Gains _ = ground arith
