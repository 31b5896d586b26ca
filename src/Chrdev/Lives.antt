-- ===== src/Chrdev/Lives.antt =====
-- The four drivers with cdevs, each from its load to its unload.
use driver_module_test.Prelude.{ℕ, ◌≡◌, ℤ, true, false}
use driver_module_test.Kernel.{Kernel, St, M}
use driver_module_test.Kernel.Held.{Resource, held}
use driver_module_test.Kernel.After.{After, After-both}
use driver_module_test.Kernel.Moments.{Always, IsBacked, IsClassed, IsOrdered, NeedsClass}
use driver_module_test.Chrdev.{Globals}
use driver_module_test.Chrdev.Life.{load_unload, LeftBy}
use driver_module_test.Chrdev.Residue.{ArrayRemains, BuffersRemain}
use driver_module_test.Chrdev.Steps.{NoBuffer, NumbersAgree}
use driver_module_test.Chrdev.RegistCdev.Release.{cdev_life-LeftBy}
use driver_module_test.Chrdev.CreateCharNode.Release.{node_life-LeftBy}
use driver_module_test.Chrdev.CharDriver.Release.{char_life-LeftBy}
use driver_module_test.Chrdev.IrqRegist.Release.{PinsLeftBy, pins_life-PinsLeftBy}
use driver_module_test.Chrdev.RegistCdev
use driver_module_test.Chrdev.RegistCdev.Moments.{cdev_life-Always, cdev_life-Classed}
use driver_module_test.Chrdev.CreateCharNode
use driver_module_test.Chrdev.CreateCharNode.Moments.{node_life-Always, node_life-Classed}
use driver_module_test.Chrdev.CharDriver
use driver_module_test.Chrdev.CharDriver.Moments.{char_life-Always, char_life-Classed}
use driver_module_test.Chrdev.IrqRegist
use driver_module_test.Chrdev.IrqRegist.Moments.{pins_life-Always, pins_life-Classed}

pub data Driver : Type 0 where
  regist_cdev create_char_node char_driver irq_regist : Driver

abbrev pub life : Kernel → Driver → M Globals ℤ
life k regist_cdev = load_unload (RegistCdev.hello_init k) (RegistCdev.hello_exit k)
life k create_char_node = load_unload (CreateCharNode.hello_init k) (CreateCharNode.hello_exit k)
life k char_driver = load_unload (CharDriver.hello_init k) (CharDriver.hello_exit k)
life k irq_regist = load_unload (IrqRegist.hello_init k) (IrqRegist.hello_exit k)

-- What a life may leave behind, by the result of the load.
abbrev pub Leftover : Kernel → Driver → St Globals → ℤ → St Globals → Resource → Type 0
Leftover k regist_cdev s n t r = LeftBy ArrayRemains false s n t r
Leftover k create_char_node s n t r = LeftBy BuffersRemain true s n t r
Leftover k char_driver s n t r = LeftBy BuffersRemain true s n t r
Leftover k irq_regist s n t r = PinsLeftBy k s n t r

module _ (k : Kernel) (s : St Globals) (law : NumbersAgree k s.globals.numdev_minor) where
  -- Let the kernel's macros put together the numbers that they take apart. When moduleRegistCdev,
  -- moduleCreateCharNode, moduleCharDriver or moduleIrqRegist is loaded, and unloaded again if
  -- the load returned 0: the only access through NULL is to a data buffer, right after its
  -- allocation failed. After an unload just the two data buffers are held beyond what was before,
  -- and the array in moduleRegistCdev, and both pins in moduleIrqRegist. After a failed load,
  -- which gives -1 but for moduleIrqRegist, nothing is in moduleRegistCdev, and at most the class
  -- in the others; but in moduleIrqRegist all that the driver owns may still be held instead.
  pub life-Leftover :
      (d : Driver) (r : Resource) → After (λ n t. Leftover k d s n t r) NoBuffer (life k d s)
  life-Leftover regist_cdev r = cdev_life-LeftBy k s r law
  life-Leftover create_char_node r = node_life-LeftBy k s r law
  life-Leftover char_driver r = char_life-LeftBy k s r law
  life-Leftover irq_regist r = pins_life-PinsLeftBy k s law r

module _ (k : Kernel) (law : NeedsClass k) (base i cls dev : ℕ) (s : St Globals) where
  life-Backed :
      (d : Driver)
      → Always (IsBacked base i) s.history
      → held (Resource.cdev base i) s.history ≡ 0
      → After
          (λ _ t. Always (IsBacked base i) t.history)
          (λ t. Always (IsBacked base i) t.history)
          (life k d s)
  life-Backed regist_cdev h none = cdev_life-Always k base i s h none
  life-Backed create_char_node h none = node_life-Always k base i s h none
  life-Backed char_driver h none = char_life-Always k base i s h none
  life-Backed irq_regist h none = pins_life-Always k base i s h none

  life-Classed :
      (d : Driver)
      → Always (IsClassed cls dev) s.history
      → held (Resource.node cls dev) s.history ≡ 0
      → After
          (λ _ t. Always (IsClassed cls dev) t.history)
          (λ t. Always (IsClassed cls dev) t.history)
          (life k d s)
  life-Classed regist_cdev h none = cdev_life-Classed k cls dev s h none
  life-Classed create_char_node h none = node_life-Classed k cls dev s law h none
  life-Classed char_driver h none = char_life-Classed k cls dev s law h none
  life-Classed irq_regist h none = pins_life-Classed k cls dev s law h none

  -- Let the kernel make no node for a class that it refused. Let a given cdev and a given node
  -- not be in use, and at every moment before have been in use only while the memory that the
  -- cdev lies in, and the node's class, were there. When moduleRegistCdev, moduleCreateCharNode,
  -- moduleCharDriver or moduleIrqRegist is loaded, and unloaded again if the load returned 0,
  -- then the same is true at every moment of this, whatever the kernel refuses and even where a
  -- NULL access ends it: no memory is freed under a cdev, and no class is destroyed under a node.
  pub life-IsOrdered :
      (d : Driver)
      → IsOrdered base i cls dev s
      → held (Resource.cdev base i) s.history ≡ 0
      → held (Resource.node cls dev) s.history ≡ 0
      → After (λ _ t. IsOrdered base i cls dev t) (IsOrdered base i cls dev) (life k d s)
  life-IsOrdered d h no_cdev no_node =
      After-both _ _ _ _ (life k d s) (life-Backed d h.0 no_cdev) (life-Classed d h.1 no_node)
