-- ===== src/Programs/ModuleApp/Round.antt =====
-- What one round of moduleAppTest.c leaves in the device of moduleUbuntuTest.
use mathlib.Core.Path.{subst}
use driver_module_test.Prelude.{
  List, ℕ, zero, suc, ◌+◌, ◌<◌, ℤ, pos, negsuc, ◌≡◌, ◌≢◌, inl, inr, refl, sym, ap, ◌∙◌, arith,
}
use driver_module_test.DeviceFile.{Syscalls, Dispatches}
use driver_module_test.Kernel.{Event, Kernel, St, ok, M, pure, and_then, ◌>>=◌, ◌>>◌}
use driver_module_test.Kernel.Held.{Resource, held}
use driver_module_test.Kernel.After.{After, After-bind}
use driver_module_test.Kernel.Loops.{for_range}
use driver_module_test.HelloModule.{
  MyDev, inc, dec, hello_open, hello_release, hello_write, hello_ops,
}
use driver_module_test.HelloModule.Count.{dec-inc}
use driver_module_test.HelloModule.Transfer.{CopiesAll, Fits, deref-there}
use driver_module_test.HelloModule.Transfer.RoundTrip.{after_write, hello_write-blit}
use driver_module_test.Programs.ModuleApp.{write_size, fill_byte, fill_buffer, round_on}

hello_release-there :
    (s : St MyDev)
    → s.globals.my_dev ≢ 0
    → hello_release s
      ≡ ok
          (pos 0)
          (record s { globals = record s.globals { i_open_count = dec s.globals.i_open_count } })
hello_release-there s there = ground arith

hello_open-there :
    (s : St MyDev)
    → s.globals.my_dev ≢ 0
    → hello_open s
      ≡ ok
          (pos 0)
          (record s { globals = record s.globals { i_open_count = inc s.globals.i_open_count } })
hello_open-there s there = ground arith

module _ (write_buff : ℕ) where
  -- The device as in `g`, the calls as in `c`, and the first `n` bytes of the buffer filled in.
  record Filled (g : MyDev) (c : List Event) (n : ℕ) (s : St MyDev) : Type 0 where
    same_globals : s.globals ≡ g
    same_history : s.history ≡ c
    numbers : (i : ℕ) → i < n → s.user (write_buff + i) ≡ i

  for_range-Filled :
      (g : MyDev) (c : List Event) (n i stop : ℕ) (s : St MyDev)
      → Filled g c i s
      → i + n ≡ stop
      → After (λ _ t. Filled g c stop t) (λ t. ⊥) (for_range n i (fill_byte write_buff) s)
  for_range-Filled g c zero i stop s h e = subst (λ x. Filled g c x s) (omega (arith, e)) h
  for_range-Filled g c (suc n) i stop s h e =
      for_range-Filled g c n (suc i) stop _
        (record {
          same_globals = h.same_globals;
          same_history = h.same_history;
          numbers = λ j lt. ground (arith, lt, h.numbers j);
        })
        (omega (arith, e))

  fill_buffer-Filled :
      (g : MyDev) (c : List Event) (s : St MyDev)
      → s.globals ≡ g
      → s.history ≡ c
      → After (λ _ t. Filled g c write_size t) (λ t. ⊥) (fill_buffer write_buff s)
  unfolding fill_buffer
  fill_buffer-Filled g c s e ec =
      for_range-Filled g c write_size 0 write_size s
        (record { same_globals = e; same_history = ec; numbers = λ i lt. omega (arith, lt) }) refl

-- The variables are as in `g`, but for enable_read, and each resource is held as often as in `c`.
pub record Settled (g : MyDev) (c : List Event) (s : St MyDev) : Type 0 where
  pub same_globals : s.globals ≡ record g { enable_read = s.globals.enable_read }
  pub same_held : (r : Resource) → held r s.history ≡ held r c

-- The last write stands in the input buffer, and a reader may go on.
pub record Written (g : MyDev) (s : St MyDev) : Type 0 where
  pub flag : s.globals.enable_read ≡ 1
  pub stored : (i : ℕ) → i < write_size → s.memory (g.p_input_data + i) ≡ i

module _ (k : Kernel) (copies : CopiesAll k) (others : M MyDev (Unit {0})) (write_buff : ℕ)
    (sys : Syscalls MyDev) (laws : Dispatches (hello_ops k others) sys) (g : MyDev) (c : List Event)
    (ne : write_buff ≢ 0) (fits : Fits k g write_size) where
  -- One session more than in `g`.
  record Opened (s : St MyDev) : Type 0 where
    one_more :
        s.globals
        ≡ record g { i_open_count = inc g.i_open_count; enable_read = s.globals.enable_read }
    same_held : (r : Resource) → held r s.history ≡ held r c

  Opened-Fits : (s : St MyDev) → Opened s → Fits k s.globals write_size
  Opened-Fits s h =
      subst (λ x. Fits k x write_size) (sym h.one_more)
        (record { device = fits.device; apart = fits.apart; size_le = fits.size_le })

  Settled-there : (s : St MyDev) → Settled g c s → s.globals.my_dev ≢ 0
  Settled-there s h e = fits.device (sym (ap (λ x. x.my_dev) h.same_globals) ∙ e)

  close_then :
      (fd : ℕ) (next : M MyDev ℤ) (s : St MyDev)
      → s.globals.my_dev ≢ 0
      → (do sys.ioctl (pos fd) 1 2; sys.close (pos fd); next) s
        ≡ next
            (record s { globals = record s.globals { i_open_count = dec s.globals.i_open_count } })
  close_then fd next s there =
      ap (λ r. and_then r (λ _. do sys.close (pos fd); next)) (laws.controls fd 1 2 s)
      ∙ ap (λ r. and_then (and_then r (λ _. pure (pos 0))) (λ _. do sys.close (pos fd); next))
          (deref-there k s.globals.my_dev s there)
      ∙ ap (λ r. and_then r (λ _. next))
          (laws.closed fd s
            ∙ ap (λ r. and_then r (λ _ t. ok (pos 0) t)) (hello_release-there s there))

  abbrev one_opened : St MyDev → St MyDev
  one_opened s = record s {
    globals = record s.globals { i_open_count = inc s.globals.i_open_count };
  }

  Filled-Opened :
      (s t : St MyDev)
      → Settled g c s
      → Filled write_buff (one_opened s).globals s.history write_size t
      → Opened t
  Filled-Opened s t h filled = record {
    one_more =
        filled.same_globals
        ∙ ap (λ (x : MyDev). record x { i_open_count = inc x.i_open_count }) h.same_globals
        ∙ ap (λ e. record g { i_open_count = inc g.i_open_count; enable_read = e })
            (sym (ap (λ x. x.enable_read) filled.same_globals));
    same_held = λ r. ap (held r) filled.same_history ∙ h.same_held r;
  }

  -- After the write and the close.
  Opened-Settled :
      (s : St MyDev)
      → Opened s
      → Settled g c (
          let w = after_write k write_buff write_size s in
          record w { globals = record w.globals { i_open_count = dec w.globals.i_open_count } })
  Opened-Settled s h = record {
    same_globals =
        ap (λ (x : MyDev). record x { i_open_count = dec x.i_open_count; enable_read = 1 })
          h.one_more
        ∙ ap (λ i. record g { i_open_count = i; enable_read = 1 }) (dec-inc g.i_open_count);
    same_held = h.same_held;
  }

  module _ (Q : ℤ → St MyDev → Type 0) (next : M MyDev ℤ) where
    Written-then :
        (fd : ℕ) (s : St MyDev)
        → Opened s
        → ((i : ℕ) → i < write_size → s.user (write_buff + i) ≡ i)
        → ((t : St MyDev) → Settled g c t → Written g t → After Q (λ t. ⊥) (next t))
        → After Q
            (λ t. ⊥)
            ((do
              sys.write (pos fd) write_buff write_size
              sys.ioctl (pos fd) 1 2
              sys.close (pos fd)
              next)
              s)
    Written-then fd s h numbers go_on =
        subst (After Q (λ t. ⊥))
          (sym (
            ap (λ r. and_then r (λ _. do sys.ioctl (pos fd) 1 2; sys.close (pos fd); next))
              (laws.writes (hello_write k) refl fd write_buff write_size s
                ∙ hello_write-blit k copies write_buff write_size s ne (Opened-Fits s h))
            ∙ close_then fd next (after_write k write_buff write_size s) (Opened-Fits s h).device))
          (go_on _ (Opened-Settled s h) (record {
            flag = refl;
            stored = λ i lt. ground (arith, lt, numbers i, ap (λ x. x.p_input_data) h.one_more);
          }))

    -- One round: nothing at all, where the node is not opened.
    pub round-Settled :
        (s : St MyDev)
        → Settled g c s
        → ((t : St MyDev) → Settled g c t → Q (negsuc 0) t)
        → ((t : St MyDev) → Settled g c t → Written g t → After Q (λ t. ⊥) (next t))
        → After Q (λ t. ⊥) ((do fd ← sys.open_file; round_on write_buff sys next fd) s)
    unfolding round_on
    round-Settled s h stop go_on = elim (laws.opened s) [
      | inl (e, refused) ↦
          subst (After Q (λ t. ⊥))
            (sym (ap (λ r. and_then r (round_on write_buff sys next)) refused)) (stop s h)
      | inr (fd, opened) ↦
          let there = Settled-there s h in
          subst (After Q (λ t. ⊥))
            (sym (
              ap (λ r. and_then r (round_on write_buff sys next))
                (opened ∙ ap (λ r. and_then r (λ _ t. ok (pos fd) t)) (hello_open-there s there))))
            (After-bind _ _ _ (fill_buffer write_buff (one_opened s)) _
              (fill_buffer-Filled write_buff (one_opened s).globals s.history (one_opened s) refl
                refl)
              (λ _ t filled. Written-then fd t (Filled-Opened s t h filled) filled.numbers go_on))
    ]
