-- ===== src/Programs/InvokeLeds.antt =====
-- moduleAppTest/invoke_leds.c: the lamp on, off and on, and a `close` in any case.
use driver_module_test.Prelude.{ℤ, pos, is_neg, ◌≡◌, ◌⊎◌, inl, inr, ap, ◌∙◌, if◌then◌else◌}
use driver_module_test.DeviceFile.{Syscalls, Dispatches}
use driver_module_test.Kernel.{Kernel, St, ok, M, pure, and_then, ◌>>=◌, ◌>>◌}
use driver_module_test.Platform.{Globals}
use driver_module_test.Platform.Leds.{hello_misc_device}
use driver_module_test.Programs.HelloTest.{lit, ioctl_then}

module _ {G : Type 0} (sys : Syscalls G) where
  -- What follows the `open`.
  abbrev main_on : (fd : ℤ) → M G (Unit {0})
  main_on fd = do
    if is_neg fd
        then pure tt
        else (do sys.ioctl fd 1 1; sys.ioctl fd 0 1; sys.ioctl fd 1 1; pure tt)
    sys.close fd
    pure tt

  abbrev pub main : M G (Unit {0})
  main = do fd ← sys.open_file; main_on fd

module _ (k : Kernel) (sys : Syscalls Globals)
    (laws : Dispatches (hello_misc_device k).fops sys) where
  pub invoke-lit :
      (s : St Globals)
      → (main sys s ≡ ok tt s) ⊎ (main sys s ≡ ok tt (lit k 1 (lit k 0 (lit k 1 s))))
  invoke-lit s = elim (laws.opened s) [
    | inl (e, refused) ↦ inl (
        ap (λ r. and_then r (main_on sys)) refused
        ∙ ap (λ r. and_then r (λ _. pure tt)) (laws.unclosed e s))
    | inr (fd, opened) ↦ inr (
        ap (λ r. and_then r (main_on sys)) opened
        ∙ ap (λ r. and_then r (λ _. do sys.close (pos fd); pure tt))
            (ioctl_then k sys laws fd 1 1 s _
              ∙ ioctl_then k sys laws fd 0 1 (lit k 1 s) _
              ∙ ioctl_then k sys laws fd 1 1 (lit k 0 (lit k 1 s)) _)
        ∙ ap (λ r. and_then r (λ _. pure tt)) (laws.closed fd (lit k 1 (lit k 0 (lit k 1 s)))))
  ]
