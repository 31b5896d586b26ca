-- ===== src/Programs/MyInvokeLeds/Session.antt =====
-- moduleCharDriver from its load to its unload, with myInvoke_leds.c run in between.
use driver_module_test.Prelude.{ℕ, ℤ, pos, negsuc, ◌≡◌, ◌≢◌, ◌⊎◌, inl, inr, ap, arith, true}
use driver_module_test.DeviceFile.{Syscalls, Dispatches}
use driver_module_test.Kernel.{Kernel, St}
use driver_module_test.Kernel.Held.{Resource}
use driver_module_test.Kernel.After.{After, After-and, After-mono}
use driver_module_test.Chrdev.{Globals}
use driver_module_test.Chrdev.Steps.{NoBuffer, NumbersAgree}
use driver_module_test.Chrdev.Load.{Owns, Leaves, Loads}
use driver_module_test.Chrdev.Residue.{BuffersRemain}
use driver_module_test.Chrdev.CharDriver.{hello_init, hello_exit}
use driver_module_test.Chrdev.CharDriver.Operations.{hello_ops}
use driver_module_test.Chrdev.CharDriver.Ready.{hello_init-IsLoaded}
use driver_module_test.Chrdev.CharDriver.Release.{hello_init-Loads, hello_exit-BuffersRemain}
use driver_module_test.Chrdev.CharDriver.Transfer.{IsLoaded}
use driver_module_test.Programs.MyInvokeLeds.{buff_size, main}
use driver_module_test.Programs.MyInvokeLeds.Exchange.{
  AreApart, Filled, Exchanged, invoke-Exchanged,
}

module _ (k : Kernel) (write_buff read_buff : ℕ) where
  abbrev pub Outcome : St Globals → St Globals → Type 0
  Outcome t u =
      Filled write_buff read_buff t.globals t.history t.memory buff_size u
      ⊎ Exchanged write_buff read_buff t.globals t.history t.memory u

  Outcome-globals : (t u : St Globals) → Outcome t u → u.globals ≡ t.globals
  Outcome-globals t u (inl h) = h.same_globals
  Outcome-globals t u (inr h) = h.ready.same_globals

  Outcome-history : (t u : St Globals) → Outcome t u → u.history ≡ t.history
  Outcome-history t u (inl h) = h.same_history
  Outcome-history t u (inr h) = h.ready.same_history

  Owns-moves :
      (s t u : St Globals) (r : Resource)
      → u.globals ≡ t.globals
      → u.history ≡ t.history
      → Owns k true true s t r
      → Owns k true true s u r
  Owns-moves s t u (Resource.memory a) eg eh h = ground (arith, eg, eh)
  Owns-moves s t u _ eg eh h = ground (arith, eg, eh)

  module _ (sys : Syscalls Globals) (laws : Dispatches hello_ops sys)
      (apart : AreApart write_buff read_buff) (from : write_buff ≢ 0) (to : read_buff ≢ 0)
      (s : St Globals) (r : Resource) where
    -- The program, and then the unload.
    abbrev pub Closes : St Globals → Type 0
    Closes t =
        After (λ _ u. Outcome t u × After (λ _ v. BuffersRemain s v r) (λ v. ⊥) (hello_exit k u))
          (λ u. ⊥) (main write_buff read_buff sys t)

    loaded-Closes : (t : St Globals) → IsLoaded t.globals → Owns k true true s t r → Closes t
    loaded-Closes t loaded own =
        After-mono _ _ _ (main write_buff read_buff sys t)
          (invoke-Exchanged write_buff read_buff sys laws t apart from to loaded)
          (λ _ u h. (
            h,
            hello_exit-BuffersRemain k (λ v. ⊥) s u r
                (Owns-moves s t u r (Outcome-globals t u h) (Outcome-history t u h) own),
          ))

    -- What a load returns, and what may follow.
    abbrev pub Sessions : ℤ → St Globals → Type 0
    Sessions (pos n) t = (n ≡ 0) × Closes t
    Sessions (negsuc n) t = (n ≡ 0) × Leaves true s t r

    Loads-Sessions :
        (n : ℤ) (t : St Globals)
        → Loads k true true s n t r × (n ≡ pos 0 → IsLoaded t.globals)
        → Sessions n t
    Loads-Sessions (pos n) t ((e, own), loaded) = (e, loaded-Closes t (loaded (ap pos e)) own)
    Loads-Sessions (negsuc n) t (h, loaded) = h

    -- Let the calls of myInvoke_leds go to the handlers of moduleCharDriver, let its two
    -- buffers be apart and at no NULL, and the kernel's macros put together the numbers that
    -- they take apart. Then a load of moduleCharDriver makes a NULL access only to a data
    -- buffer, right after its allocation failed, or it returns -1 with at most the class held
    -- beyond what was before, or it returns 0. In the last case the program runs without a NULL
    -- access: either nothing of the driver changed and its buffers are as first filled; or the
    -- driver's variables are as before, its first buffer starts with the numbers 0 to 127,
    -- memory outside these bytes is as before, and both buffers of the program hold the
    -- numbers. The unload that follows makes no NULL access, and after it just the two data
    -- buffers are held beyond what was before the load.
    pub hello_init-Sessions :
        NumbersAgree k s.globals.numdev_minor → After Sessions NoBuffer (hello_init k s)
    hello_init-Sessions law =
        After-mono _ _ _ (hello_init k s)
          (After-and _ _ _ (hello_init k s) (hello_init-Loads k s law r) (hello_init-IsLoaded k s))
          Loads-Sessions
