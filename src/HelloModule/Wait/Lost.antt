-- ===== src/HelloModule/Wait/Lost.antt =====
-- hello_write of moduleUbuntuTest wakes the readers before it sets `enable_read`.
use driver_module_test.Prelude.{◌≢◌, ◌≤◌, ℕ, ◌≡◌, refl, arith, Bool, true, false, ◌==◌}
use driver_module_test.Kernel.{Kernel}
use driver_module_test.HelloModule.{dev_buff_max}
use driver_module_test.HelloModule.Transfer.{copy_from_user-there, log_data-there}
use driver_module_test.HelloModule.Wait.{
  Requests, Reader, Writer, System, enabled, Step, Reach, turn_away, enter, see_set, see_clear,
  give_up, reset, bump, copy_out, log_out, refuse, fill, wake, enable, log_in, here, later,
}

module _ (k : Kernel) (asked : Requests) (i : ℕ) where
  -- The steps that end the sleep of reader `i`.
  abbrev pub rouses : {s t : System} → Step k asked s t → Bool
  rouses (wake j e) = true
  rouses (give_up j e) = j == i
  rouses (see_set j e h) = false
  rouses (see_clear j e h) = false
  rouses (reset j e) = false
  rouses (bump j e h) = false
  rouses (copy_out j e h) = false
  rouses (fill j e le h) = false
  rouses (turn_away j e h) = false
  rouses (enter j e h) = false
  rouses (log_out j e h) = false
  rouses (refuse j e h) = false
  rouses (log_in j e h) = false
  rouses (enable j e) = false

  -- Any number of other steps.
  pub data Undisturbed (s : System) : System → Type 0 where
    still : Undisturbed s s
    further :
        {t u : System}
        → Undisturbed s t
        → (st : Step k asked t u) → rouses st ≡ false
        → Undisturbed s u

  abbrev pub IsAsleep : System → Type 0
  IsAsleep s = s.reader i ≡ Reader.asleep

  Step-IsAsleep :
      {s t : System} → (st : Step k asked s t) → rouses st ≡ false → IsAsleep s → IsAsleep t
  Step-IsAsleep (wake j e) q h = cc
  Step-IsAsleep (give_up j e) q h = ground (arith, e, q, h)
  Step-IsAsleep (see_set j e l) q h = ground (arith, e, h)
  Step-IsAsleep (see_clear j e l) q h = ground (arith, e, h)
  Step-IsAsleep (reset j e) q h = ground (arith, e, h)
  Step-IsAsleep (bump j e l) q h = ground (arith, e, h)
  Step-IsAsleep (copy_out j e l) q h = ground (arith, e, h)
  Step-IsAsleep (turn_away j e l) q h = ground (arith, e, h)
  Step-IsAsleep (enter j e l) q h = ground (arith, e, h)
  Step-IsAsleep (log_out j e l) q h = ground (arith, e, h)
  Step-IsAsleep (refuse j e l) q h = h
  Step-IsAsleep (fill j e le l) q h = h
  Step-IsAsleep (log_in j e l) q h = h
  Step-IsAsleep (enable j e) q h = h

  Undisturbed-IsAsleep : {s t : System} → Undisturbed s t → IsAsleep s → IsAsleep t
  Undisturbed-IsAsleep still h = h
  Undisturbed-IsAsleep (further r st q) h = Step-IsAsleep st q (Undisturbed-IsAsleep r h)

  -- In the interleaving of readers and writers of moduleUbuntuTest: whenever a reader sleeps, a
  -- writer is about to start with at most a buffer from an address that is not NULL, enable_read
  -- is 0 and the input buffer is there, there is a run in which that writer returns and
  -- enable_read is 1, and after which the reader stays asleep through any further steps that are
  -- neither a wake-up nor the end of its own wait by a signal or the timeout.
  pub lost_wakeup :
      (j : ℕ) (s : System)
      → IsAsleep s
      → s.writer j ≡ Writer.starting
      → enabled s ≡ 0
      → (asked.write j).buf ≢ 0
      → (asked.write j).size ≤ dev_buff_max
      → s.dev.globals.p_input_data ≢ 0
      → (t : System) × Reach k asked s t
        × (t.writer j ≡ Writer.finished)
        × (enabled t ≡ 1)
        × ((u : System) → Undisturbed t u → IsAsleep u)
  lost_wakeup j s asleep starts clear from le there =
      let user = (asked.write j).buf in
      let size = (asked.write j).size in
      (
        _,
        later
            (later
              (later
                (later
                  (later here (
                    fill j starts le
                      (copy_from_user-there k s.dev.globals.p_input_data user size s.dev there)))
                  (wake j (ground arith)))
                (see_clear i (ground (arith, asleep)) clear))
              (enable j (ground arith)))
            (log_in j (ground arith) (log_data-there k user size _ from there)),
        ground arith,
        refl,
        λ u quiet. Undisturbed-IsAsleep quiet (ground arith),
      )
