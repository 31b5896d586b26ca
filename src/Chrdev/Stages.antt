-- ===== src/Chrdev/Stages.antt =====
-- The life of a character driver, for what holds at its stages: before the first device, after each
-- device, and everywhere.
use driver_module_test.Prelude.{
  ℕ, ℤ, pos, negsuc, zero, suc, is_zero, Bool, true, false, if◌then◌else◌,
}
use driver_module_test.Kernel.{Kernel, St, M, pure, ◌>>◌, ◌>>=◌}
use driver_module_test.Kernel.Loops.{for_range}
use driver_module_test.Kernel.After.{After, After-bind}
use driver_module_test.Chrdev.{Globals, device_minor_num, prepare}
use driver_module_test.Chrdev.Life.{load_unload}

module _ (k : Kernel) (Holds : St Globals → Type 0) (Stage : ℕ → St Globals → Type 0)
    (weaken : (n : ℕ) (t : St Globals) → Stage n t → Holds t) where
  -- The load is through, with a result.
  abbrev pub IsLate : ℤ → St Globals → Type 0
  IsLate (pos n) t = Stage device_minor_num t
  IsLate (negsuc n) t = Holds t

  pub done-IsLate :
      (t : St Globals) → Stage device_minor_num t → After IsLate Holds (pure (pos 0) t)
  done-IsLate t h = h

  module _ (make_class : M Globals (Unit {0})) (body : ℕ → M Globals (Unit {0}))
      (finish : M Globals ℤ) (exit : M Globals (Unit {0})) (s : St Globals)
      (prepared : After
        (λ there t. if there then Stage 0 t else Holds t)
        Holds
        (prepare k make_class s))
      (builds : (n : ℕ) (t : St Globals)
        → Stage n t
        → After (λ _ u. Stage (suc n) u) Holds (body n t))
      (finishes : (t : St Globals) → Stage device_minor_num t → After IsLate Holds (finish t))
      (unloads : (t : St Globals)
        → Stage device_minor_num t
        → After (λ _ u. Holds u) Holds (exit t)) where
    abbrev devices_then : Bool → M Globals ℤ
    devices_then there =
        if there then (do for_range device_minor_num 0 body; finish) else pure (negsuc 0)

    loop-IsLate :
        (there : Bool) (t : St Globals)
        → (if there then Stage 0 t else Holds t)
        → After IsLate Holds (devices_then there t)
    loop-IsLate false t h = h
    loop-IsLate true t h =
        After-bind _ _ Holds (for_range device_minor_num 0 body t) _
          (After-bind _ _ Holds (body 0 t) _ (builds 0 t h)
            (λ _ u hu. After-bind _ _ Holds (body 1 u) _ (builds 1 u hu) (λ _ v hv. hv)))
          (λ _ u. finishes u)

    unload-Holds :
        (n : ℤ) (t : St Globals)
        → IsLate n t
        → After (λ _ u. Holds u) Holds ((if is_zero n then (do exit; pure n) else pure n) t)
    unload-Holds (pos zero) t h = After-bind _ _ Holds (exit t) _ (unloads t h) (λ _ u b. b)
    unload-Holds (pos (suc n)) t h = weaken device_minor_num t h
    unload-Holds (negsuc n) t h = h

    pub load_unload-Holds :
        After
          (λ _ u. Holds u)
          Holds
          (load_unload (do there ← prepare k make_class; devices_then there) exit s)
    load_unload-Holds =
        After-bind IsLate _ Holds ((do there ← prepare k make_class; devices_then there) s) _
          (After-bind _ _ Holds (prepare k make_class s) _ prepared loop-IsLate) unload-Holds
