-- ===== src/Examples/Platform.antt =====
-- The theorems on the registering drivers, at one life where everything is granted.
use driver_module_test.Prelude.{refl, List, [], ◌∷◌}
use driver_module_test.Kernel.{St, final}
use driver_module_test.Kernel.Held.{Resource}
use driver_module_test.Chrdev.Steps.{bit}
use driver_module_test.Platform.{Globals, PowerEvent}
use driver_module_test.Platform.Release.{Ends}
use driver_module_test.Platform.Lives.{life, leds, is_left, is_overdrawn, life-Ends}
use driver_module_test.Examples.{obliging, at_start}

abbrev first : St Globals
first = at_start tt

abbrev nap : List PowerEvent
nap = PowerEvent.suspend ∷ PowerEvent.resume ∷ []

life-Ends_example :
    Ends
      (Resource.gpio 200)
      first
      (final (life obliging nap leds first))
      (bit (is_left obliging first leds (Resource.gpio 200)))
      (bit (is_overdrawn obliging first leds (Resource.gpio 200)))
life-Ends_example = life-Ends obliging first leds nap (Resource.gpio 200) refl
