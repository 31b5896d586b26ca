-- ===== src/Platform/Param/Log.antt =====
-- What moduleParam writes to the kernel's log.
use driver_module_test.Prelude.{
  ℕ, zero, suc, ◌+◌, pos, ◌≡◌, refl, sym, ap, ◌∙◌, arith, List, [], ◌∷◌, ◌++◌,
}
use driver_module_test.Kernel.{Event, Kernel, St, ok, and_then, record_call}
use driver_module_test.Kernel.Held.{Resource, held, overdrawn}
use driver_module_test.Kernel.Loops.{for_range}
use driver_module_test.Platform.{Globals}
use driver_module_test.Platform.Param.{
  Parameters, rounds, log_element, log_parameters, hello_misc_unlocked_ioctl, hello_init,
}

-- The state after these calls, the last one first.
abbrev pub after : List Event → St Globals → St Globals
after [] s = s
after (e ∷ events) s = record_call e (after events s)

pub after-append :
    (events earlier : List Event) (s : St Globals)
    → after (events ++ earlier) s ≡ after events (after earlier s)
after-append [] earlier s = refl
after-append (e ∷ events) earlier s = ap (record_call e) (after-append events earlier s)

pub history-after :
    (events : List Event) (s : St Globals) → (after events s).history ≡ events ++ s.history
history-after [] s = refl
history-after (e ∷ events) s = ap (λ h. e ∷ h) (history-after events s)

-- The same is held, and was given back without being held.
abbrev pub HoldsSame : Resource → (s t : St Globals) → Type 0
HoldsSame r s t =
    (held r s.history ≡ held r t.history) × (overdrawn r s.history ≡ overdrawn r t.history)

module _ (p : Parameters) where
  -- The messages on the first `n` elements, the last one first.
  abbrev pub elements : ℕ → List Event
  elements zero = []
  elements (suc n) = Event.printk (pos n ∷ p.int_array n ∷ []) ∷ elements n

  abbrev arguments : List Event
  arguments = Event.printk (p.module_arg2 ∷ []) ∷ Event.printk (p.module_arg1 ∷ []) ∷ []

  abbrev pub report : List Event
  report = elements (rounds p.array_num) ++ arguments

  abbrev pub reply : (cmd arg : ℕ) → List Event
  reply cmd arg = report ++ (Event.printk (pos cmd ∷ pos arg ∷ []) ∷ [])

  elements-log :
      (n i : ℕ) (s : St Globals)
      → for_range n i (log_element p) (after (elements i) s) ≡ ok tt (after (elements (i + n)) s)
  elements-log zero i s = ap (λ j. ok tt (after (elements j) s)) (omega arith)
  elements-log (suc n) i s =
      elements-log n (suc i) s ∙ ap (λ j. ok tt (after (elements j) s)) (omega arith)

  all_elements-log :
      (n : ℕ) (s : St Globals) → for_range n 0 (log_element p) s ≡ ok tt (after (elements n) s)
  all_elements-log n s = elements-log n 0 s ∙ ap (λ j. ok tt (after (elements j) s)) (omega arith)

  pub report-log : (s : St Globals) → log_parameters p s ≡ ok tt (after report s)
  report-log s =
      all_elements-log (rounds p.array_num) _
      ∙ ap (ok tt) (sym (after-append (elements (rounds p.array_num)) _ s))

  -- The answer to a command.
  pub reply-log :
      (cmd arg : ℕ) (s : St Globals)
      → hello_misc_unlocked_ioctl p cmd arg s ≡ ok (pos 0) (after (reply cmd arg) s)
  unfolding hello_misc_unlocked_ioctl
  reply-log cmd arg s =
      ap (λ r. and_then r (λ _ t. ok (pos 0) t)) (report-log (record_call _ s))
      ∙ ap (ok (pos 0)) (sym (after-append report _ s))

  module _ (k : Kernel) where
    -- The registration of the device, and then the messages.
    abbrev pub loaded : St Globals → List Event
    loaded s =
        report ++ (Event.printk (pos 0 ∷ []) ∷ Event.misc_register (k.misc_register s.tick) ∷ [])

    pub loaded-log : (s : St Globals) → hello_init p k s ≡ ok (pos 0) (after (loaded s) s)
    unfolding hello_init
    loaded-log s =
        ap (λ r. and_then r (λ _ t. ok (pos 0) t)) (report-log (record_call _ (record_call _ s)))
        ∙ ap (ok (pos 0)) (sym (after-append report _ s))

  module _ (r : Resource) where
    elements-HoldsSame : (n : ℕ) (s : St Globals) → HoldsSame r (after (elements n) s) s
    elements-HoldsSame zero s = (refl, refl)
    elements-HoldsSame (suc n) s = ground (arith, elements-HoldsSame n s)

    report-HoldsSame : (s : St Globals) → HoldsSame r (after report s) s
    report-HoldsSame s =
        rw (after-append (elements (rounds p.array_num)) _ s)
          (ground (arith, elements-HoldsSame (rounds p.array_num) (after arguments s)))

    -- Of all that a load does, the registration alone counts.
    pub loaded-HoldsSame :
        (k : Kernel) (s : St Globals)
        → HoldsSame r
            (after (loaded k s) s)
            (record_call (Event.misc_register (k.misc_register s.tick)) s)
    loaded-HoldsSame k s = rw (after-append report _ s) (
        ground (
          arith,
          report-HoldsSame (
              record_call (Event.printk (pos 0 ∷ []))
                (record_call (Event.misc_register (k.misc_register s.tick)) s)),
        ))
