-- ===== src/Programs/ModuleApp/Rounds.antt =====
-- What the five rounds of moduleAppTest.c leave in the device of moduleUbuntuTest.
use driver_module_test.Prelude.{ℕ, zero, suc, ℤ, pos, negsuc, ◌≡◌, ◌≢◌, ◌⊎◌, inl, inr, refl}
use driver_module_test.DeviceFile.{Syscalls, Dispatches}
use driver_module_test.Kernel.{Kernel, St, M}
use driver_module_test.Kernel.After.{After}
use driver_module_test.HelloModule.{MyDev, hello_ops}
use driver_module_test.HelloModule.Transfer.{CopiesAll, Fits}
use driver_module_test.Programs.ModuleApp.{write_size, rounds, main}
use driver_module_test.Programs.ModuleApp.Round.{Settled, Written, round-Settled}

-- The program is through, or gave up at an `open` that failed.
abbrev pub Ends : St MyDev → ℤ → St MyDev → Type 0
Ends s r t = Settled s.globals s.history t × (((r ≡ pos 0) × Written s.globals t) ⊎ (r ≡ negsuc 0))

module _ (k : Kernel) (copies : CopiesAll k) (others : M MyDev (Unit {0})) (write_buff : ℕ)
    (sys : Syscalls MyDev) (laws : Dispatches (hello_ops k others) sys) (ne : write_buff ≢ 0) where
  rounds-Ends :
      (d : St MyDev) (fits : Fits k d.globals write_size) (n : ℕ) (s : St MyDev)
      → Settled d.globals d.history s
      → Written d.globals s
      → After (Ends d) (λ t. ⊥) (rounds write_buff sys n s)
  rounds-Ends d fits zero s h w = (h, inl (refl, w))
  rounds-Ends d fits (suc n) s h w =
      round-Settled k copies others write_buff sys laws d.globals d.history ne fits (Ends d)
        (rounds write_buff sys n) s h (λ t ht. (ht, inr refl)) (rounds-Ends d fits n)

  -- Let the calls of moduleUbuntuTest/moduleApp go to the handlers of moduleUbuntuTest, with the
  -- caller's memory accessible, its buffer not NULL, and the structure and its buffers there,
  -- which do not overlap. Then its main ends without a NULL access and with the device's
  -- variables but enable_read, and what is held, as before; it returns 0, and then enable_read is
  -- 1 and the input buffer starts with the bytes 0 to 9, or it returns -1.
  pub main-Ends :
      (s : St MyDev) → Fits k s.globals write_size → After (Ends s) (λ t. ⊥) (main write_buff sys s)
  unfolding main
  main-Ends s fits =
      round-Settled k copies others write_buff sys laws s.globals s.history ne fits (Ends s)
        (rounds write_buff sys 4) s (record { same_globals = refl; same_held = λ r. refl })
        (λ t ht. (ht, inr refl)) (rounds-Ends s fits 4)
