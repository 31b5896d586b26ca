-- ===== src/Platform.antt =====
-- The drivers that register with the platform bus or as a misc device, and what the bus does with
-- a driver: it probes it for a device that is there, and removes what was bound.
pub mod Hello
pub mod Regist
pub mod Misc
pub mod OnlyMisc
pub mod Param
pub mod Leds
pub mod Driver
pub mod Device
pub mod Release
pub mod Lives
use Prim.Native.String.{String}
use driver_module_test.Prelude.{
  ℤ, is_neg, is_zero, if◌then◌else◌, Option, some, none, List, [], ◌∷◌, ◌≡◌, refl, fun_ext, ◌∙◌, ap,
}
use driver_module_test.Kernel.{Kernel, M, ok, pure, and_then, St, ◌>>=◌, ◌>>◌}

-- None of these modules has a variable that it changes.
abbrev pub Globals : Type 0
Globals = Unit {0}

-- `struct platform_driver`, as far as the drivers fill it in.
pub record PlatformDriver : Type 0 where
  pub probe : M Globals ℤ
  pub remove : M Globals ℤ
  pub shutdown : Option (M Globals (Unit {0}))
  pub suspend : Option (M Globals ℤ)
  pub resume : Option (M Globals ℤ)
  pub name : String

-- What the bus calls on a driver that is bound, when the machine sleeps, wakes up or goes down.
pub data PowerEvent : Type 0 where
  shutdown suspend resume : PowerEvent

-- A callback that is not filled in is not called.
abbrev pub if_set : {A : Type 0} → Option (M Globals A) → M Globals (Unit {0})
if_set none = pure tt
if_set (some f) = do f; pure tt

abbrev pub handle : PlatformDriver → PowerEvent → M Globals (Unit {0})
handle drv shutdown = if_set drv.shutdown
handle drv suspend = if_set drv.suspend
handle drv resume = if_set drv.resume

abbrev pub power : PlatformDriver → List PowerEvent → M Globals (Unit {0})
power drv [] = pure tt
power drv (e ∷ events) = do handle drv e; power drv events

-- Its callbacks for these do nothing.
abbrev pub IsIdle : PlatformDriver → Type 0
IsIdle drv = (e : PowerEvent) (s : St Globals) → handle drv e s ≡ ok tt s

power-IsIdle :
    (drv : PlatformDriver)
    → IsIdle drv
    → (events : List PowerEvent) (s : St Globals) → power drv events s ≡ ok tt s
power-IsIdle drv idle [] s = refl
power-IsIdle drv idle (e ∷ events) s =
    ap (λ r. and_then r (λ _. power drv events)) (idle e s) ∙ power-IsIdle drv idle events s

-- The bus binds the driver to its device, which then sees power events, and unbinds it; a refused
-- probe binds nothing.
abbrev pub bind_unbind : PlatformDriver → (bound : M Globals (Unit {0})) → M Globals (Unit {0})
bind_unbind drv bound = do
  r ← drv.probe
  if is_neg r then pure tt else (do bound; drv.remove; pure tt)

-- The module is loaded, its driver is bound and unbound if the bus accepted it, and the module is
-- unloaded.
abbrev pub life_while :
    Kernel
    → (init : M Globals ℤ) (drv : PlatformDriver) (exit : M Globals (Unit {0}))
    → (bound : M Globals (Unit {0})) → M Globals (Unit {0})
life_while k init drv exit bound s =
    (do
      init
      if is_zero (k.platform_driver_register s.tick) then bind_unbind drv bound else pure tt
      exit)
      s

abbrev pub driver_life :
    Kernel
    → (init : M Globals ℤ) (drv : PlatformDriver) (exit : M Globals (Unit {0})) → List PowerEvent
    → M Globals (Unit {0})
driver_life k init drv exit events = life_while k init drv exit (power drv events)

-- The power events of an idle driver make no difference.
pub driver_life-IsIdle :
    (k : Kernel) (init : M Globals ℤ) (drv : PlatformDriver) (exit : M Globals (Unit {0}))
    → IsIdle drv
    → (events : List PowerEvent) (s : St Globals)
    → driver_life k init drv exit events s ≡ life_while k init drv exit (pure tt) s
driver_life-IsIdle k init drv exit idle events s =
    ap (λ bound. life_while k init drv exit bound s) (fun_ext (power-IsIdle drv idle events))
