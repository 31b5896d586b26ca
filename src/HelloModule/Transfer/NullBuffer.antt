-- ===== src/HelloModule/Transfer/NullBuffer.antt =====
-- The handlers of moduleUbuntuTest, called with a NULL buffer.
use driver_module_test.Prelude.{◌∷◌, ℕ, suc, ◌+◌, ◌<◌, negsuc, ◌≡◌, ap, ◌∙◌, arith, if◌then◌else◌}
use driver_module_test.Prelude.Blit.{blit}
use driver_module_test.Kernel.{
  Event, Kernel, St, oops, pure, and_then, get, put, deref, ◌>>=◌, ◌>>◌,
}
use driver_module_test.Kernel.Loops.{for_range}
use driver_module_test.HelloModule.{
  MyDev, bump_byte, log_user, hello_write, hello_read, hello_read_on, copy_to_user,
}
use driver_module_test.HelloModule.Transfer.{
  Fits, bumped, deref-there, within, for_range-bump_byte, copy_to_user-there,
}

module _ (k : Kernel) (size : ℕ) (s : St MyDev) (some_bytes : 0 < size)
    (fit : Fits k s.globals size) where
  -- After the copy, the wake-up and `enable_read = 1`.
  abbrev pub taken : St MyDev
  taken = record s {
    globals = record s.globals { enable_read = 1 };
    tick = suc s.tick;
    history = Event.wake_up_interruptible ∷ s.history;
    memory = (k.copy_from_user s.tick s.memory s.user s.globals.p_input_data 0 size).1;
  }

  pub hello_write-null : hello_write k 0 size s ≡ oops taken
  unfolding hello_write
  hello_write-null = ground (arith, fit.device, fit.apart, fit.size_le)

  abbrev looped : ℕ → ℕ
  looped =
      blit s.memory (bumped s.memory) (s.globals.p_output_data + 0) (s.globals.p_input_data + 0)
        size

  -- After `enable_read = 0`, the loop over the bytes and the copy.
  abbrev pub offered : St MyDev
  offered = record s {
    globals = record s.globals { enable_read = 0 };
    memory = looped;
    user = (k.copy_to_user s.tick s.user looped 0 s.globals.p_output_data size).1;
  }

  hello_read_on-null : hello_read_on k 0 size s ≡ oops offered
  unfolding hello_read_on
  hello_read_on-null =
      let t : St MyDev = record s { globals = record s.globals { enable_read = 0 } } in
      ap
        (λ r. and_then r (λ _. do
          put (record s.globals { enable_read = 0 })
          for_range size 0 (bump_byte k)
          copy_to_user k 0 s.globals.p_output_data size
          log_user 0 size))
        (deref-there k s.globals.my_dev s fit.device)
      ∙ ap
          (λ r. and_then r (λ _. do copy_to_user k 0 s.globals.p_output_data size; log_user 0 size))
          (for_range-bump_byte k size 0 t fit.apart (ground (arith, fit.size_le)))
      ∙ ap (λ r. and_then r (λ _. log_user 0 size))
          (copy_to_user-there k 0 s.globals.p_output_data size (record t { memory = looped })
            fit.apart.1)
      ∙ ground arith

  -- Where the structure of moduleUbuntuTest and its buffers are there, which do not overlap: a
  -- write of 1 to 128 bytes from NULL does the copy, the wake-up and enable_read = 1, and then
  -- makes a NULL access; a read of as many to NULL, with nothing done by others meanwhile, does
  -- enable_read = 0, the loop over the bytes and the copy, and then makes a NULL access. Neither
  -- returns, whatever the copies answer.
  pub null-Oops :
      (hello_write k 0 size s ≡ oops taken) × (hello_read k (pure tt) 0 size s ≡ oops offered)
  unfolding hello_read
  null-Oops = (
    hello_write-null,
    ap
          (λ b.
            (if b
                then pure (negsuc 0)
                else (do g ← get; deref g.my_dev; pure tt; hello_read_on k 0 size))
              s)
          (within k size fit.size_le)
        ∙ ap (λ r. and_then r (λ _. do pure tt; hello_read_on k 0 size))
            (deref-there k s.globals.my_dev s fit.device)
        ∙ hello_read_on-null,
  )
