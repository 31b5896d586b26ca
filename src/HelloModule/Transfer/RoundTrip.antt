-- ===== src/HelloModule/Transfer/RoundTrip.antt =====
-- What a `write` of moduleUbuntuTest stores, and what a `read` then delivers.
use mathlib.Core.Path.{subst}
use driver_module_test.Prelude.{
  ◌∷◌, ℕ, suc, ◌+◌, ◌%◌, ◌<◌, ℤ, pos, negsuc, ◌≡◌, ◌≢◌, refl, sym, ap, ◌∙◌, arith, fun_ext,
  if◌then◌else◌,
}
use driver_module_test.Prelude.Blit.{blit}
use driver_module_test.Kernel.{Event, Kernel, St, ok, pure, and_then, get, put, deref, ◌>>=◌, ◌>>◌}
use driver_module_test.Kernel.After.{After}
use driver_module_test.Kernel.Calls.{void}
use driver_module_test.HelloModule.{MyDev, log_data, hello_write, hello_read, copy_from_user}
use driver_module_test.HelloModule.Transfer.{
  CopiesAll, Fits, deref-there, log_data-there, copy_from_user-there, within, hello_read-bumped,
}

module _ (k : Kernel) where
  abbrev pub after_write : (user size : ℕ) → St MyDev → St MyDev
  after_write user size s = record s {
    globals = record s.globals { enable_read = 1 };
    tick = suc s.tick;
    history = Event.wake_up_interruptible ∷ s.history;
    memory = blit s.memory s.user s.globals.p_input_data user size;
  }

  pub hello_write-blit :
      (copies : CopiesAll k) (user size : ℕ) (s : St MyDev)
      → user ≢ 0
      → Fits k s.globals size
      → hello_write k user size s ≡ ok (pos 0) (after_write user size s)
  unfolding hello_write
  hello_write-blit copies user size s ne fit =
      ap
        (λ b.
          (if b then pure (negsuc 0) else (do
            g ← get
            deref g.my_dev
            copy_from_user k g.p_input_data user size
            void Event.wake_up_interruptible
            h ← get
            put (record h { enable_read = 1 })
            log_data user size))
            s)
        (within k size fit.size_le)
      ∙ ap
          (λ r. and_then r (λ _. do
            copy_from_user k s.globals.p_input_data user size
            void Event.wake_up_interruptible
            h ← get
            put (record h { enable_read = 1 })
            log_data user size))
          (deref-there k s.globals.my_dev s fit.device)
      ∙ ap
          (λ r. and_then r (λ _. do
            void Event.wake_up_interruptible
            h ← get
            put (record h { enable_read = 1 })
            log_data user size))
          (copy_from_user-there k s.globals.p_input_data user size s fit.apart.0)
      ∙ log_data-there k user size _ ne fit.apart.0
      ∙ ap
          (λ m. ok (pos 0) (record s {
            globals = record s.globals { enable_read = 1 };
            tick = suc s.tick;
            history = Event.wake_up_interruptible ∷ s.history;
            memory = m;
          }))
          (fun_ext (copies.from_user s.tick s.memory s.user s.globals.p_input_data user size))

  -- Where the caller's memory is accessible, the structure of moduleUbuntuTest and its buffers
  -- are there, which do not overlap, at most a buffer is asked for and the two addresses are not
  -- NULL: a write of `size` bytes and then a read of as many, with nothing in between, both
  -- return 0 and deliver each byte written plus 2, modulo 256.
  pub hello_read-write :
      (copies : CopiesAll k) (from to size : ℕ) (s : St MyDev)
      → from ≢ 0
      → to ≢ 0
      → Fits k s.globals size
      → After
          (λ (r : ℤ × ℤ) t.
            (r.0 ≡ pos 0)
            × (r.1 ≡ pos 0)
            × ((i : ℕ) → i < size → t.user (to + i) ≡ (s.user (from + i) + 2) % 256))
          (λ t. ⊥)
          ((do
            wrote ← hello_write k from size
            got ← hello_read k (pure tt) to size
            pure (wrote, got))
            s)
  hello_read-write copies from to size s nf nt fit =
      subst (After _ _)
        (sym (
          ap (λ r. and_then r (λ n. do got ← hello_read k (pure tt) to size; pure (n, got)))
            (hello_write-blit copies from size s nf fit)
          ∙ ap (λ r. and_then r (λ got. pure (pos 0, got)))
              (hello_read-bumped k copies (pure tt) to size (after_write from size s)
                (after_write from size s) nt fit.device refl
                (record { device = fit.device; apart = fit.apart; size_le = fit.size_le }))))
        (refl, refl, λ i lt. ground (arith, lt))
