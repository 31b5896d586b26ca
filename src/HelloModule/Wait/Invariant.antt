-- ===== src/HelloModule/Wait/Invariant.antt =====
-- What `enable_read` says of the writers of moduleUbuntuTest.
use driver_module_test.Prelude.{
  ℕ, zero, suc, ◌≡◌, ◌≢◌, ◌≤◌, ◌⊎◌, inl, inr, refl, ap, ◌∙◌, arith, update, Bool-cases, ◌==◌,
}
use driver_module_test.Kernel.{Kernel, St}
use driver_module_test.Kernel.Loops.{for_range}
use driver_module_test.Kernel.After.{After, After-bind, After-mono, After-ok}
use driver_module_test.HelloModule.{MyDev, dev_buff_max, bump_byte}
use driver_module_test.HelloModule.Wait.{
  Requests, Writer, System, enabled, Step, Reach, turn_away, enter, see_set, see_clear, give_up,
  reset, bump, copy_out, log_out, refuse, fill, wake, enable, log_in, here, later,
}

module _ (k : Kernel) (asked : Requests) where
  pub for_range-bump_byte_globals :
      (n i : ℕ) (s : St MyDev)
      → After (λ _ t. t.globals ≡ s.globals) (λ _. Unit {0}) (for_range n i (bump_byte k) s)
  unfolding bump_byte
  for_range-bump_byte_globals zero i s = refl
  for_range-bump_byte_globals (suc n) i s =
      After-bind (λ _ t. t.globals ≡ s.globals) _ (λ _. Unit {0}) (bump_byte k i s) _ (ground arith)
        (λ _ t e.
          After-mono _ _ (λ _. Unit {0}) (for_range n (suc i) (bump_byte k) t)
            (for_range-bump_byte_globals n (suc i) t) (λ _ u h. h ∙ e))

  -- The writer has set `enable_read`.
  abbrev pub HasSet : Writer → Type 0
  HasSet w = (w ≡ Writer.logging) ⊎ (w ≡ Writer.finished)

  abbrev IsWritten : System → Type 0
  IsWritten s = enabled s ≢ 0 → (j : ℕ) × HasSet (s.writer j)

  -- A writer that has set it stays so, where another one moves or it has itself set it again.
  kept :
      (s : System) (j : ℕ) (w : Writer)
      → (HasSet (s.writer j) → HasSet w)
      → (i : ℕ) × HasSet (s.writer i)
      → (i : ℕ) × HasSet (update s.writer j w i)
  kept s j w on (i, e) = elim (Bool-cases (j == i)) [
    | inl same ↦ (i, ground (arith, e, same, on))
    | inr other ↦ (i, ground (arith, e, other))
  ]

  Step-IsWritten : {s t : System} → Step k asked s t → IsWritten s → IsWritten t
  Step-IsWritten (turn_away i e lt) h = h
  Step-IsWritten (enter i e le) h = h
  Step-IsWritten (see_set i e set) h = h
  Step-IsWritten (see_clear i e clear) h = h
  Step-IsWritten (give_up i e) h = h
  Step-IsWritten {s} (reset i e) h = λ set. absurd (set refl)
  Step-IsWritten {s} (bump i e r) h = λ set. h (λ z. set (
      ap (λ (g : MyDev). g.enable_read)
        (After-ok _ (λ _. Unit {0}) _ (for_range-bump_byte_globals (asked.read i).size 0 s.dev) r)
      ∙ z))
  Step-IsWritten {s} (copy_out i e r) h = λ set. h (λ z. set (ground (arith, r, z)))
  Step-IsWritten {s} (log_out i e r) h = λ set. h (λ z. set (ground (arith, r, z)))
  Step-IsWritten {s} (refuse j e lt) h =
      λ set. kept s j Writer.refused (λ f. ground (arith, e, f)) (h set)
  Step-IsWritten {s} (fill j e le r) h = λ set.
      kept s j Writer.filled (λ f. ground (arith, e, f)) (h (λ z. set (ground (arith, r, z))))
  Step-IsWritten {s} (wake j e) h = λ set. kept s j Writer.woke (λ f. ground (arith, e, f)) (h set)
  Step-IsWritten {s} (enable j e) h = λ set. (j, ground arith)
  Step-IsWritten {s} (log_in j e r) h = λ set. (j, ground arith)

  Reach-IsWritten : {s t : System} → Reach k asked s t → IsWritten s → IsWritten t
  Reach-IsWritten here h = h
  Reach-IsWritten (later r st) h = Step-IsWritten st (Reach-IsWritten r h)

  -- A writer that is neither at the start nor refused passed the test of its size.
  abbrev IsAccepted : ℕ → System → Type 0
  IsAccepted j s =
      s.writer j ≢ Writer.starting
      → s.writer j ≢ Writer.refused
      → (asked.write j).size ≤ dev_buff_max

  Step-IsAccepted : (j : ℕ) {s t : System} → Step k asked s t → IsAccepted j s → IsAccepted j t
  Step-IsAccepted j (turn_away i e lt) h = h
  Step-IsAccepted j (enter i e le) h = h
  Step-IsAccepted j (see_set i e set) h = h
  Step-IsAccepted j (see_clear i e clear) h = h
  Step-IsAccepted j (give_up i e) h = h
  Step-IsAccepted j (reset i e) h = h
  Step-IsAccepted j (bump i e r) h = h
  Step-IsAccepted j (copy_out i e r) h = h
  Step-IsAccepted j (log_out i e r) h = h
  Step-IsAccepted j (refuse i e lt) h = λ a b. ground (arith, e, h, a, b)
  Step-IsAccepted j (fill i e le r) h = λ a b. ground (arith, e, le, h, a, b)
  Step-IsAccepted j (wake i e) h = λ a b. ground (arith, e, h, a, b)
  Step-IsAccepted j (enable i e) h = λ a b. ground (arith, e, h, a, b)
  Step-IsAccepted j (log_in i e r) h = λ a b. ground (arith, e, h, a, b)

  Reach-IsAccepted : (j : ℕ) {s t : System} → Reach k asked s t → IsAccepted j s → IsAccepted j t
  Reach-IsAccepted j here h = h
  Reach-IsAccepted j (later r st) h = Step-IsAccepted j st (Reach-IsAccepted j r h)

  -- In every interleaving of readers and writers of moduleUbuntuTest in which no writer has
  -- started and enable_read is 0 at first: whenever enable_read is not 0, some writer that asked
  -- for at most a buffer has set it, and that writer has returned or still has its bytes to log.
  pub Reach-HasSet :
      (s t : System)
      → Reach k asked s t
      → ((j : ℕ) → s.writer j ≡ Writer.starting)
      → enabled s ≡ 0
      → enabled t ≢ 0
      → (j : ℕ) × HasSet (t.writer j) × ((asked.write j).size ≤ dev_buff_max)
  Reach-HasSet s t r starts clear set =
      let (j, has) = Reach-IsWritten r (λ ne. absurd (ne clear)) set in
      let accepted : IsAccepted j t = Reach-IsAccepted j r (λ a b. absurd (a (starts j))) in
      (j, has, accepted (λ a. ground (arith, has, a)) (λ b. ground (arith, has, b)))
