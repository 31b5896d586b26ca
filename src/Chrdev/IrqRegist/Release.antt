-- ===== src/Chrdev/IrqRegist/Release.antt =====
-- What moduleIrqRegist holds after it was loaded and unloaded again.
use driver_module_test.Prelude.{
  zero, suc, ◌+◌, ℤ, pos, negsuc, is_zero, ◌≡◌, ◌≤◌, ◌⊎◌, inl, arith, Bool, true, false, ◌==◌,
  if◌then◌else◌,
}
use driver_module_test.Kernel.{Kernel, St, pure, ◌>>◌}
use driver_module_test.Kernel.Held.{Resource, held}
use driver_module_test.Kernel.Loops.{for_range}
use driver_module_test.Kernel.After.{After, After-bind}
use driver_module_test.Chrdev.{Globals, prepare, create_class, setup_node, device_minor_num}
use driver_module_test.Chrdev.Steps.{
  bit, NoBuffer, NumbersAgree, setup_node-Keeps, setup_node-Gains,
}
use driver_module_test.Chrdev.Steps.Pair.{for_range-GainsBoth}
use driver_module_test.Chrdev.Load.{
  Owns, Leaves, HasArray, Owns-GainsBoth, prepare-create_class-HasArray,
}
use driver_module_test.Chrdev.Life.{load_unload}
use driver_module_test.Chrdev.Residue.{BuffersRemain}
use driver_module_test.Chrdev.IrqRegist.{configure_pins, hello_init, hello_exit}

module _ (k : Kernel) where
  -- What the node driver owns, and both pins.
  abbrev pub OwnsPins : St Globals → St Globals → Resource → Type 0
  OwnsPins s t (Resource.gpio p) =
      held (Resource.gpio p) t.history
      ≡ held (Resource.gpio p) s.history + bit (k.gpx1 1 == p) + bit (k.gpx1 2 == p)
  OwnsPins s t r = Owns k true true s t r

  -- All that the node driver owns, though a pin was refused.
  abbrev pub KeepsAll : St Globals → St Globals → Resource → Type 0
  KeepsAll s t (Resource.gpio p) =
      held (Resource.gpio p) s.history ≤ held (Resource.gpio p) t.history
  KeepsAll s t r = Owns k true true s t r

  abbrev pub LoadsPins : St Globals → ℤ → St Globals → Resource → Type 0
  LoadsPins s n t r = if is_zero n then OwnsPins s t r else (Leaves true s t r ⊎ KeepsAll s t r)

  configure_pins-LoadsPins :
      (s t : St Globals) (r : Resource)
      → Owns k true true s t r
      → After (λ n u. LoadsPins s n u r) NoBuffer (configure_pins k t)
  unfolding configure_pins
  configure_pins-LoadsPins s t (Resource.gpio p) h = ground arith
  configure_pins-LoadsPins s t _ h = ground arith

  -- After a load that returned 0, and the unload: the buffers and both pins are still held.
  abbrev pub PinsRemain : St Globals → St Globals → Resource → Type 0
  PinsRemain s t (Resource.gpio p) =
      held (Resource.gpio p) t.history
      ≡ held (Resource.gpio p) s.history + bit (k.gpx1 1 == p) + bit (k.gpx1 2 == p)
  PinsRemain s t (Resource.irq i c) =
      held (Resource.irq i c) t.history ≤ held (Resource.irq i c) s.history
  PinsRemain s t r = BuffersRemain s t r

  abbrev pub PinsLeftBy : St Globals → ℤ → St Globals → Resource → Type 0
  PinsLeftBy s n t r = if is_zero n then PinsRemain s t r else (Leaves true s t r ⊎ KeepsAll s t r)

  hello_exit-PinsRemain :
      (s t : St Globals) (r : Resource)
      → OwnsPins s t r
      → After (λ _ u. PinsRemain s u r) NoBuffer (hello_exit k t)
  unfolding hello_exit
  hello_exit-PinsRemain s t (Resource.memory a) h = ground arith
  hello_exit-PinsRemain s t _ h = ground arith

  module _ (s : St Globals) (law : NumbersAgree k s.globals.numdev_minor) (r : Resource) where
    devices-LoadsPins :
        (there : Bool) (t : St Globals)
        → HasArray k true s there t r
        → After
            (λ n u. LoadsPins s n u r)
            NoBuffer
            ((if there
                then (for_range device_minor_num 0 (setup_node k) >> configure_pins k)
                else pure (negsuc 0))
              t)
    devices-LoadsPins false t h = inl h
    devices-LoadsPins true t h =
        After-bind _ _ NoBuffer (for_range device_minor_num 0 (setup_node k) t) _
          (for_range-GainsBoth k true (setup_node k) (setup_node-Keeps k) (setup_node-Gains k) t r)
          (λ _ u g. configure_pins-LoadsPins s u r (Owns-GainsBoth k true true s t u r h g))

    hello_init-LoadsPins : After (λ n t. LoadsPins s n t r) NoBuffer (hello_init k s)
    unfolding hello_init
    hello_init-LoadsPins =
        After-bind (λ there t. HasArray k true s there t r) _ NoBuffer
          (prepare k (create_class k) s) _ (prepare-create_class-HasArray k s law r)
          devices-LoadsPins

    unload-PinsLeftBy :
        (n : ℤ) (t : St Globals)
        → LoadsPins s n t r
        → After
            (λ m u. PinsLeftBy s m u r)
            NoBuffer
            ((if is_zero n then (do hello_exit k; pure n) else pure n) t)
    unload-PinsLeftBy (pos zero) t h =
        After-bind (λ _ u. PinsRemain s u r) _ NoBuffer (hello_exit k t) _
          (hello_exit-PinsRemain s t r h) (λ _ u q. q)
    unload-PinsLeftBy (pos (suc n)) t h = h
    unload-PinsLeftBy (negsuc n) t h = h

    -- Let the kernel's macros put together the numbers that they take apart. When
    -- moduleIrqRegist is loaded, and unloaded again if the load returned 0: after an unload the
    -- two data buffers and both pins are held beyond what was before, and no more; after any
    -- other load either at most the class is held, or all that the node driver owns still is.
    -- The only access through NULL is to a data buffer, right after its allocation failed.
    pub pins_life-PinsLeftBy :
        After (λ n t. PinsLeftBy s n t r) NoBuffer (load_unload (hello_init k) (hello_exit k) s)
    pins_life-PinsLeftBy =
        After-bind (λ n t. LoadsPins s n t r) _ NoBuffer (hello_init k s) _ hello_init-LoadsPins
          unload-PinsLeftBy
