-- ===== src/HelloModule/Wait/Progress.antt =====
-- How the wait of a reader of moduleUbuntuTest ends: by `enable_read`, a signal or the timeout.
use driver_module_test.Prelude.{sym, ℕ, ◌≡◌, ◌≢◌, refl, arith, inl, inr, Bool-cases, ==_iff, ◌==◌}
use mathlib.Core.Path.{subst}
use driver_module_test.Kernel.After.{After-ok}
use driver_module_test.HelloModule.Wait.Invariant.{for_range-bump_byte_globals}
use driver_module_test.Kernel.{Kernel}
use driver_module_test.HelloModule.Transfer.{
  CopiesAll, copy_to_user-there, copy_to_user-globals, copy_from_user-globals, Fits,
  for_range-bump_byte, log_user-there,
}
use driver_module_test.HelloModule.Wait.{
  Requests, Reader, System, enabled, moves, Step, Reach, turn_away, enter, see_set, see_clear,
  give_up, reset, bump, copy_out, log_out, refuse, fill, wake, enable, log_in, here, later,
}

module _ (k : Kernel) (asked : Requests) (copies : CopiesAll k) (i : ℕ)
    (to : (asked.read i).buf ≢ 0) where
  abbrev pub Ready : System → Type 0
  Ready s = Fits k s.dev.globals (asked.read i).size

  abbrev pub Finishes : System → Type 0
  Finishes s = (t : System) × Reach k asked s t × (t.reader i ≡ Reader.finished)

  -- One step more at the front.
  Finishes-later : {s t : System} → Step k asked s t → Finishes t → Finishes s
  Finishes-later st (u, r, e) = (u, before st r, e)
    where
      before : {s t u : System} → Step k asked s t → Reach k asked t u → Reach k asked s u
      before st here = later here st
      before st (later r q) = later (before st r) q

  copied-Finishes : (s : System) → s.reader i ≡ Reader.copied → Finishes s
  copied-Finishes s e = (
    _,
    later here (log_out i e (log_user-there k (asked.read i).buf (asked.read i).size s.dev to)),
    ground arith,
  )

  bumped-Finishes : (s : System) → Ready s → s.reader i ≡ Reader.bumped → Finishes s
  bumped-Finishes s fit e =
      Finishes-later
        (copy_out i e (
          copy_to_user-there k (asked.read i).buf s.dev.globals.p_output_data (asked.read i).size
            s.dev fit.apart.1))
        (copied-Finishes _ (ground arith))

  cleared-Finishes : (s : System) → Ready s → s.reader i ≡ Reader.cleared → Finishes s
  cleared-Finishes s fit e =
      Finishes-later
        (bump i e (
          for_range-bump_byte k (asked.read i).size 0 s.dev fit.apart
            (ground (arith, fit.size_le))))
        (bumped-Finishes _
          (record { device = fit.device; apart = fit.apart; size_le = fit.size_le }) (ground arith))

  past-Finishes : (s : System) → Ready s → s.reader i ≡ Reader.past → Finishes s
  past-Finishes s fit e = Finishes-later (reset i e) (
      cleared-Finishes _ (record { device = fit.device; apart = fit.apart; size_le = fit.size_le })
        (ground arith))

  asleep-Finishes : (s : System) → Ready s → s.reader i ≡ Reader.asleep → Finishes s
  asleep-Finishes s fit e =
      Finishes-later (give_up i e) (past-Finishes (moves s i Reader.past) fit (ground arith))

  waiting-Finishes : (s : System) → Ready s → s.reader i ≡ Reader.waiting → Finishes s
  waiting-Finishes s fit e = elim (Bool-cases (enabled s == 0)) [
    | inl clear ↦
        Finishes-later (see_clear i e ((==_iff (enabled s) 0).0 clear))
          (asleep-Finishes (moves s i Reader.asleep) fit (ground arith))
    | inr set ↦
        Finishes-later (see_set i e (λ z. ground (arith, z, set)))
          (past-Finishes (moves s i Reader.past) fit (ground arith))
  ]

  Finishes-at : (s : System) (r : Reader) → Ready s → s.reader i ≡ r → Finishes s
  Finishes-at s Reader.starting fit e =
      Finishes-later (enter i e fit.size_le)
        (waiting-Finishes (moves s i Reader.waiting) fit (ground arith))
  Finishes-at s Reader.copied fit e = copied-Finishes s e
  Finishes-at s Reader.waiting fit e = waiting-Finishes s fit e
  Finishes-at s Reader.asleep fit e = asleep-Finishes s fit e
  Finishes-at s Reader.past fit e = past-Finishes s fit e
  Finishes-at s Reader.cleared fit e = cleared-Finishes s fit e
  Finishes-at s Reader.bumped fit e = bumped-Finishes s fit e
  Finishes-at s Reader.finished fit e = (s, here, e)

  Step-Fits : {s t : System} → Step k asked s t → Ready s → Ready t
  Step-Fits (turn_away i e lt) fit = fit
  Step-Fits (enter i e le) fit = fit
  Step-Fits (refuse i e le) fit = fit
  Step-Fits (see_set i e set) fit = fit
  Step-Fits (see_clear i e clear) fit = fit
  Step-Fits (give_up i e) fit = fit
  Step-Fits (reset j e) fit = record {
    device = fit.device;
    apart = fit.apart;
    size_le = fit.size_le;
  }
  Step-Fits {s} (bump j e r) fit =
      subst (λ g. Fits k g (asked.read i).size)
        (sym (
          After-ok _ (λ _. Unit {0}) _
            (for_range-bump_byte_globals k asked (asked.read j).size 0 s.dev) r))
        fit
  Step-Fits {s} (copy_out j {n} {t} e r) fit =
      subst (λ g. Fits k g (asked.read i).size)
        (copy_to_user-globals k (asked.read j).buf s.dev.globals.p_output_data (asked.read j).size n
          s.dev t r)
        fit
  Step-Fits {s} (fill j {n} {t} e le r) fit =
      subst (λ g. Fits k g (asked.read i).size)
        (copy_from_user-globals k s.dev.globals.p_input_data (asked.write j).buf
          (asked.write j).size n s.dev t r)
        fit
  Step-Fits {s} (log_out j {n} {t} e r) fit =
      subst (λ g. Fits k g (asked.read i).size) (ground (arith, r)) fit
  Step-Fits {s} (log_in j {n} {t} e r) fit =
      subst (λ g. Fits k g (asked.read i).size) (ground (arith, r)) fit
  Step-Fits (wake j e) fit = fit
  Step-Fits (enable j e) fit = record {
    device = fit.device;
    apart = fit.apart;
    size_le = fit.size_le;
  }

  Reach-Fits : {s t : System} → Reach k asked s t → Ready s → Ready t
  Reach-Fits here fit = fit
  Reach-Fits (later r st) fit = Step-Fits st (Reach-Fits r fit)

  -- Where the caller's memory is accessible, a given reader's buffer is not NULL, and the
  -- interleaving of readers and writers of moduleUbuntuTest starts with the structure and its
  -- buffers there, which do not overlap, and that reader asking for at most a buffer: from every
  -- state that it reaches there is a run in which the reader returns.
  pub reader-Finishes : (s t : System) → Ready s → Reach k asked s t → Finishes t
  reader-Finishes s t fit r = Finishes-at t (t.reader i) (Reach-Fits r fit) refl
