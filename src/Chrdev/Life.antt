-- ===== src/Chrdev/Life.antt =====
-- A driver's life: it is loaded, and unloaded again if the load returned 0.
use driver_module_test.Prelude.{zero, suc, refl, Bool, ℤ, pos, negsuc, ◌≡◌, is_zero, if◌then◌else◌}
use driver_module_test.Kernel.{Kernel, St, M, pure, ◌>>=◌, ◌>>◌}
use driver_module_test.Kernel.Held.{Resource}
use driver_module_test.Kernel.After.{After, After-bind}
use driver_module_test.Chrdev.{Globals}
use driver_module_test.Chrdev.Steps.{NoBuffer}
use driver_module_test.Chrdev.Load.{Owns, Leaves, Loads}

abbrev pub load_unload : M Globals ℤ → M Globals (Unit {0}) → M Globals ℤ
load_unload init exit = do n ← init; if is_zero n then (do exit; pure n) else pure n

-- What a life leaves behind, by the result of the load: `Residue` after an unload, at most the
-- class after a failure.
abbrev pub LeftBy :
    (Residue : St Globals → St Globals → Resource → Type 0)
    → Bool
    → St Globals
    → ℤ
    → St Globals
    → Resource
    → Type 0
LeftBy Residue classes s (pos n) t r = (n ≡ 0) × Residue s t r
LeftBy Residue classes s (negsuc n) t r = (n ≡ 0) × Leaves classes s t r

module _ (k : Kernel) (classes nodes : Bool) (Residue : St Globals → St Globals → Resource → Type 0)
    (init : M Globals ℤ) (exit : M Globals (Unit {0})) (s : St Globals) (r : Resource)
    (loads : After (λ n t. Loads k classes nodes s n t r) NoBuffer (init s))
    (unloads : (t : St Globals)
      → Owns k classes nodes s t r
      → After (λ _ u. Residue s u r) NoBuffer (exit t)) where
  rest :
      (n : ℤ) (t : St Globals)
      → Loads k classes nodes s n t r
      → After
          (λ m u. LeftBy Residue classes s m u r)
          NoBuffer
          ((if is_zero n then (do exit; pure n) else pure n) t)
  rest (pos zero) t h =
      After-bind (λ _ u. Residue s u r) _ NoBuffer (exit t) _ (unloads t h.1) (λ _ u q. (refl, q))
  rest (pos (suc n)) t h = cc h.0
  rest (negsuc n) t h = h

  pub load_unload-LeftBy :
      After (λ m u. LeftBy Residue classes s m u r) NoBuffer (load_unload init exit s)
  load_unload-LeftBy =
      After-bind (λ n t. Loads k classes nodes s n t r) _ NoBuffer (init s) _ loads rest
