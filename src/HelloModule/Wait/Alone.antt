-- ===== src/HelloModule/Wait/Alone.antt =====
-- The handlers of moduleUbuntuTest as runs of the interleaving: a writer, with others between its
-- wake-up and `enable_read = 1`, and a reader with no other between.
use driver_module_test.Prelude.{
  ◌+◌, ℕ, update, refl, pos, negsuc, ◌≡◌, ◌≢◌, ◌≤◌, ℤ, ap, ◌∙◌, arith, if◌then◌else◌,
}
use driver_module_test.Kernel.{
  Event, Kernel, M, St, ok, record_call, pure, and_then, get, put, deref, ◌>>=◌, ◌>>◌,
}
use driver_module_test.Prelude.Blit.{blit}
use driver_module_test.Kernel.Loops.{for_range}
use driver_module_test.HelloModule.{
  MyDev, log_user, log_data, dev_buff_max, bump_byte, copy_to_user, copy_from_user,
  hello_write_amid, hello_read, hello_read_on,
}
use driver_module_test.HelloModule.Transfer.{
  Fits, deref-there, log_user-there, bumped, copy_to_user-there, within, for_range-bump_byte,
}
use driver_module_test.HelloModule.Wait.{
  Requests, Reader, Writer, System, enabled, Reach, see_set, reset, bump, copy_out, log_out, fill,
  wake, enable, log_in, woken, here, later,
}

module _ (k : Kernel) (asked : Requests) (s : System) (j : ℕ) where
  abbrev from : ℕ
  from = (asked.write j).buf

  abbrev size_of : ℕ
  size_of = (asked.write j).size

  -- The device after the copy, and the system after the wake-up.
  abbrev filled_dev : St MyDev
  filled_dev = record s.dev {
    memory =
        (k.copy_from_user s.dev.tick s.dev.memory s.dev.user s.dev.globals.p_input_data from
          size_of).1;
  }

  abbrev pub woken_up : System
  woken_up = record s {
    dev = record_call Event.wake_up_interruptible filled_dev;
    reader = λ i. woken (s.reader i);
    writer = update (update s.writer j Writer.filled) j Writer.woke;
  }

  -- What `others` make of the device, with the writer behind its wake-up.
  module _ (others : M MyDev (Unit {0})) (w : System) (acts : others woken_up.dev ≡ ok tt w.dev)
      (le : size_of ≤ dev_buff_max) where
    abbrev enabled_dev : St MyDev
    enabled_dev = record w.dev { globals = record w.dev.globals { enable_read = 1 } }

    hello_write-filled :
        {n : ℤ} {t : St MyDev}
        → hello_write_amid k others from size_of s.dev ≡ ok n t
        → copy_from_user k s.dev.globals.p_input_data from size_of s.dev
          ≡ ok
              (k.copy_from_user s.dev.tick s.dev.memory s.dev.user s.dev.globals.p_input_data from
                size_of).0
              filled_dev
    hello_write-filled e = ground (arith, e)

    hello_write-logged :
        {n : ℤ} {t : St MyDev}
        → hello_write_amid k others from size_of s.dev ≡ ok n t
        → log_data from size_of enabled_dev ≡ ok n t
    hello_write-logged e = ground (arith, e, acts)

    -- Let other callers act between the wake-up and `enable_read = 1` of a hello_write of
    -- moduleUbuntuTest of at most a buffer, in a run of the interleaving that leaves the writer
    -- where it is. If the hello_write with these actions between them returns, then the
    -- interleaving has a run from the start of that writer, through its copy and its wake-up,
    -- those actions and the rest of its steps, after which the writer has returned and the
    -- device is as the hello_write leaves it.
    pub hello_write-Reach :
        {n : ℤ} {t : St MyDev}
        → Reach k asked woken_up w
        → s.writer j ≡ Writer.starting
        → w.writer j ≡ Writer.woke
        → hello_write_amid k others from size_of s.dev ≡ ok n t
        → (u : System) × Reach k asked s u × (u.dev ≡ t) × (u.writer j ≡ Writer.finished)
    hello_write-Reach run starts stays e = (
      _,
      later
          (later
            (joined
              (later (later here (fill j starts le (hello_write-filled e))) (wake j (ground arith)))
              run)
            (enable j stays))
          (log_in j (ground arith) (hello_write-logged e)),
      refl,
      ground arith,
    )
      where
        joined : {s t u : System} → Reach k asked s t → Reach k asked t u → Reach k asked s u
        joined p here = p
        joined p (later q st) = later (joined p q) st

module _ (k : Kernel) (asked : Requests) (s : System) (i : ℕ) where
  pub hello_read-Reach :
      (asked.read i).buf ≢ 0
      → Fits k s.dev.globals (asked.read i).size
      → s.reader i ≡ Reader.waiting
      → enabled s ≢ 0
      → (u : System) × Reach k asked s u
        × (hello_read k (pure tt) (asked.read i).buf (asked.read i).size s.dev ≡ ok (pos 0) u.dev)
        × (u.reader i ≡ Reader.finished)
  unfolding hello_read hello_read_on
  hello_read-Reach ne fit waits set =
      let buf = (asked.read i).buf in
      let size = (asked.read i).size in
      let t : St MyDev = record s.dev { globals = record s.dev.globals { enable_read = 0 } } in
      let u : St MyDev = record t {
        memory =
            blit s.dev.memory (bumped s.dev.memory) (s.dev.globals.p_output_data + 0)
              (s.dev.globals.p_input_data + 0) size;
      } in
      let copied = copy_to_user-there k buf s.dev.globals.p_output_data size u fit.apart.1 in
      let looped = for_range-bump_byte k size 0 t fit.apart (ground (arith, fit.size_le)) in
      (
        _,
        later
            (later
              (later (later (later here (see_set i waits set)) (reset i (ground arith)))
                (bump i (ground arith) looped))
              (copy_out i (ground arith) copied))
            (log_out i (ground arith) (log_user-there k buf size _ ne)),
        ap
              (λ b.
                (if b
                    then pure (negsuc 0)
                    else (do g ← get; deref g.my_dev; pure tt; hello_read_on k buf size))
                  s.dev)
              (within k size fit.size_le)
            ∙ ap (λ r. and_then r (λ _. do pure tt; hello_read_on k buf size))
                (deref-there k s.dev.globals.my_dev s.dev fit.device)
            ∙ ap
                (λ r. and_then r (λ _. do
                  put (record s.dev.globals { enable_read = 0 })
                  for_range size 0 (bump_byte k)
                  copy_to_user k buf s.dev.globals.p_output_data size
                  log_user buf size))
                (deref-there k s.dev.globals.my_dev s.dev fit.device)
            ∙ ap
                (λ r.
                  and_then r (λ _. do
                    copy_to_user k buf s.dev.globals.p_output_data size
                    log_user buf size))
                looped
            ∙ ap (λ r. and_then r (λ _. log_user buf size)) copied
            ∙ log_user-there k buf size _ ne,
        ground arith,
      )
