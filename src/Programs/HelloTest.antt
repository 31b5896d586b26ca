-- ===== src/Programs/HelloTest.antt =====
-- moduleAppTest/moduleAppOnlyMiscHelloTest.c: the lamp of /dev/hello_misc_device on, off and on.
use driver_module_test.Prelude.{
  ℕ, suc, ℤ, pos, negsuc, is_neg, is_zero, true, false, ◌≡◌, ◌⊎◌, inl, inr, ap, ◌∙◌, Bool, not,
  ◌&&◌, ◌==◌, List, [], ◌∷◌, arith, if◌then◌else◌,
}
use driver_module_test.DeviceFile.{is_open, Syscalls, Dispatches}
use driver_module_test.Kernel.{
  Event, Kernel, Run, St, ok, M, pure, final, and_then, record_call, ◌>>=◌, ◌>>◌,
}
use driver_module_test.Platform.{Globals, life_while}
use driver_module_test.Platform.Leds.{
  hello_misc_device, hello_driver, hello_init, hello_probe, hello_remove, hello_exit,
}

module _ {G : Type 0} (sys : Syscalls G) where
  -- What follows the `open`.
  abbrev main_on : (fd : ℤ) → M G ℤ
  main_on fd =
      if is_neg fd
      then pure (negsuc 0)
      else (do sys.ioctl fd 1 1; sys.ioctl fd 0 0; sys.ioctl fd 1 1; sys.close fd; pure (pos 0))

  abbrev pub main : M G ℤ
  main = do fd ← sys.open_file; main_on fd

module _ (k : Kernel) where
  abbrev pub lit : ℕ → St Globals → St Globals
  lit v s = record_call (Event.gpio_set_value (k.gpl2 0) v) s

  module _ (sys : Syscalls Globals) (laws : Dispatches (hello_misc_device k).fops sys) where
    pub ioctl_then :
        {A : Type 0} (fd v arg : ℕ) (s : St Globals) (next : M Globals A)
        → (do sys.ioctl (pos fd) v arg; next) s ≡ next (lit v s)
    ioctl_then fd v arg s next = ap (λ r. and_then r (λ _. next)) (laws.controls fd v arg s)

    pub main-lit :
        (s : St Globals)
        → ((is_open (sys.open_file s) ≡ false) × (main sys s ≡ ok (negsuc 0) s))
          ⊎ ((is_open (sys.open_file s) ≡ true)
              × (main sys s ≡ ok (pos 0) (lit 1 (lit 0 (lit 1 s)))))
    main-lit s = elim (laws.opened s) [
      | inl (e, refused) ↦ inl (ap is_open refused, ap (λ r. and_then r (main_on sys)) refused)
      | inr (fd, opened) ↦ inr (
        ap is_open opened,
        ap (λ r. and_then r (main_on sys)) opened
            ∙ ioctl_then fd 1 1 s _
            ∙ ioctl_then fd 0 0 (lit 1 s) _
            ∙ ioctl_then fd 1 1 (lit 0 (lit 1 s)) _
            ∙ ap (λ r. and_then r (λ _. pure (pos 0))) (laws.closed fd (lit 1 (lit 0 (lit 1 s)))),
      )
    ]

-- The values that a pin was set to, the last one first.
abbrev pub values : (gpio : ℕ) → List Event → List ℕ
values gpio [] = []
values gpio (Event.gpio_set_value g v ∷ h) = if g == gpio then v ∷ values gpio h else values gpio h
values gpio (_ ∷ h) = values gpio h

module _ (k : Kernel) (s : St Globals) where
  -- The bus takes the driver, and the pin is granted.
  abbrev pub is_bound : Bool
  is_bound =
      is_zero (k.platform_driver_register s.tick)
      && not (is_neg (k.gpio_request (suc s.tick) (k.gpl2 0)))

  -- The driver's load, the program while the driver is bound, and the unload.
  abbrev pub session : Syscalls Globals → Run Globals (Unit {0})
  session sys = life_while k (hello_init k) (hello_driver k) hello_exit (do main sys; pure tt) s

  -- What the program finds.
  abbrev pub bound_state : St Globals
  bound_state = final ((do hello_init k; hello_probe k) s)

  -- Let the calls of moduleAppOnlyMiscHelloTest go to the handlers of moduleDriverLEDS. When the
  -- driver is loaded, bound if the bus takes it, used by the program while it is bound, unbound
  -- and unloaded, then the lamp's pin is set to 0 and, if the node could be opened, to 1, 0 and
  -- 1, which is the last value; where the bus refuses the driver or the pin is refused, it is not
  -- set at all.
  pub session-Lights :
      (sys : Syscalls Globals)
      → Dispatches (hello_misc_device k).fops sys
      → let before = values (k.gpl2 0) s.history in
        let after = values (k.gpl2 0) (final (session sys)).history in
        if is_bound
        then (if is_open (sys.open_file bound_state)
            then after ≡ 1 ∷ 0 ∷ 1 ∷ 0 ∷ before
            else after ≡ 0 ∷ before)
        else after ≡ before
  unfolding hello_init hello_probe hello_remove hello_exit
  session-Lights sys laws = ground (arith, main-lit k sys laws bound_state)
