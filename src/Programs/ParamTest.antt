-- ===== src/Programs/ParamTest.antt =====
-- moduleAppTest/moduleParam.c: three commands to /dev/hello_only_misc_device, which two of the
-- drivers create.
use driver_module_test.Prelude.{
  ℕ, ℤ, pos, negsuc, is_neg, true, false, ◌≡◌, ◌⊎◌, inl, inr, ap, sym, ◌∙◌, List, ◌∷◌, ◌++◌,
  if◌then◌else◌,
}
use driver_module_test.DeviceFile.{is_open, Syscalls, Dispatches}
use driver_module_test.Kernel.{Event, Kernel, St, ok, M, pure, and_then, record_call, ◌>>=◌, ◌>>◌}
use driver_module_test.Platform.{Globals}
use driver_module_test.Platform.Param.{Parameters, hello_misc_device, hello_init, hello_exit}
use driver_module_test.Platform.Param.Log.{
  after, after-append, reply, reply-log, loaded, loaded-log,
}

module _ {G : Type 0} (sys : Syscalls G) where
  -- What follows the `open`.
  abbrev main_on : (fd : ℤ) → M G ℤ
  main_on fd =
      if is_neg fd
      then pure (negsuc 0)
      else (do sys.ioctl fd 1 1; sys.ioctl fd 0 0; sys.ioctl fd 1 1; sys.close fd; pure (pos 0))

  abbrev pub main : M G ℤ
  main = do fd ← sys.open_file; main_on fd

-- The messages on the three commands, the last one first.
abbrev pub replies : Parameters → List Event
replies p = reply p 1 1 ++ (reply p 0 0 ++ reply p 1 1)

-- The load, the program on the loaded driver, and the unload.
abbrev pub session : Kernel → Parameters → Syscalls Globals → M Globals (Unit {0})
session k p sys = do hello_init p k; main sys; hello_exit

module _ (k : Kernel) (p : Parameters) (sys : Syscalls Globals)
    (laws : Dispatches (hello_misc_device p).fops sys) where
  ioctl_then :
      (fd cmd arg : ℕ) (s : St Globals) (next : M Globals ℤ)
      → (do sys.ioctl (pos fd) cmd arg; next) s ≡ next (after (reply p cmd arg) s)
  ioctl_then fd cmd arg s next =
      ap (λ r. and_then r (λ _. next)) (laws.controls fd cmd arg s ∙ reply-log p cmd arg s)

  replies-after :
      (s : St Globals)
      → after (reply p 1 1) (after (reply p 0 0) (after (reply p 1 1) s)) ≡ after (replies p) s
  replies-after s =
      sym
        (after-append (reply p 1 1) _ s ∙ ap (after (reply p 1 1)) (after-append (reply p 0 0) _ s))

  main-replies :
      (s : St Globals)
      → ((is_open (sys.open_file s) ≡ false) × (main sys s ≡ ok (negsuc 0) s))
        ⊎ ((is_open (sys.open_file s) ≡ true) × (main sys s ≡ ok (pos 0) (after (replies p) s)))
  main-replies s = elim (laws.opened s) [
    | inl (e, refused) ↦ inl (ap is_open refused, ap (λ r. and_then r (main_on sys)) refused)
    | inr (fd, opened) ↦ inr (
      ap is_open opened,
      ap (λ r. and_then r (main_on sys)) opened
          ∙ ioctl_then fd 1 1 s _
          ∙ ioctl_then fd 0 0 _ _
          ∙ ioctl_then fd 1 1 _ _
          ∙ ap (λ r. and_then r (λ _. pure (pos 0))) (laws.closed fd _)
          ∙ ap (ok (pos 0)) (replies-after s),
    )
  ]

  -- Let the calls of the program moduleParam go to the handlers of the driver moduleParam. A
  -- load, the program and an unload make just these calls and messages with numbers, in this
  -- order: the misc device is registered; DriverState, which is 0, both arguments and the array's
  -- elements by index, from 0 to the number that was given, are logged; if the node could be
  -- opened, for each of three commands its number and argument, and the parameters once more; and
  -- the misc device is deregistered.
  pub session-Logs :
      (s : St Globals)
      → session k p sys s
        ≡ ok tt (
            after
              (Event.misc_deregister
                ∷ (if is_open (sys.open_file (after (loaded p k s) s))
                    then replies p ++ loaded p k s
                    else loaded p k s))
              s)
  unfolding hello_exit
  session-Logs s =
      let start : session k p sys s
          ≡ and_then (main sys (after (loaded p k s) s)) (λ _. hello_exit) =
        ap (λ r. and_then r (λ _. (do main sys; hello_exit))) (loaded-log p k s) in
      elim (main-replies (after (loaded p k s) s)) [
        | inl (closed, refused) ↦ rw closed (start ∙ ap (λ r. and_then r (λ _. hello_exit)) refused)
        | inr (opened, done) ↦ rw opened (
            start
            ∙ ap (λ r. and_then r (λ _. hello_exit)) done
            ∙ ap (λ t. ok tt (record_call Event.misc_deregister t))
                (sym (after-append (replies p) (loaded p k s) s)))
      ]
