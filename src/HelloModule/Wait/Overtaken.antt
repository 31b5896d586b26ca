-- ===== src/HelloModule/Wait/Overtaken.antt =====
-- Two readers of moduleUbuntuTest share one output buffer, without a lock.
use driver_module_test.Prelude.{ℕ, ◌+◌, ◌%◌, ◌<◌, ◌≤◌, ◌≡◌, ◌≢◌, ◌∙◌, arith}
use driver_module_test.Prelude.Blit.{blit}
use driver_module_test.Kernel.{Kernel, ok}
use driver_module_test.HelloModule.{copy_from_user}
use driver_module_test.HelloModule.Transfer.{
  CopiesAll, Fits, bumped, for_range-bump_byte, copy_from_user-there, copy_to_user-there,
  log_user-there,
}
use driver_module_test.HelloModule.Wait.{
  Requests, Reader, Writer, System, Reach, see_set, reset, bump, copy_out, log_out, fill, wake,
  enable, here, later,
}

module _ (k : Kernel) (asked : Requests) (copies : CopiesAll k) (i i' j : ℕ) (s : System) where
  abbrev inp : ℕ
  inp = s.dev.globals.p_input_data

  abbrev size' : ℕ
  size' = (asked.read i').size

  abbrev from : ℕ
  from = (asked.write j).buf

  -- Memory after the copy of writer `j`.
  abbrev filled_memory : ℕ → ℕ
  filled_memory = (k.copy_from_user s.dev.tick s.dev.memory s.dev.user inp from size').1

  copied :
      (asked.write j).size ≡ size'
      → inp ≢ 0
      → copy_from_user k inp from (asked.write j).size s.dev
        ≡ ok
            (k.copy_from_user s.dev.tick s.dev.memory s.dev.user inp from size').0
            (record s.dev { memory = filled_memory })
  copied same there = rw same (copy_from_user-there k inp from size' s.dev there)

  delivered :
      (a : ℕ)
      → a < (asked.read i).size
      → (asked.read i).size ≤ size'
      → blit s.dev.user
          (blit filled_memory
            (bumped filled_memory)
            (s.dev.globals.p_output_data + 0)
            (inp + 0)
            size')
          (asked.read i).buf
          s.dev.globals.p_output_data
          (asked.read i).size
          ((asked.read i).buf + a)
        ≡ (s.dev.user (from + a) + 2) % 256
  delivered a lt le =
      let stored : filled_memory (inp + a) ≡ s.dev.user (from + a) =
        copies.from_user s.dev.tick s.dev.memory s.dev.user inp from size' (inp + a)
        ∙ ground (arith, lt, le) in
      ground (arith, lt, le, stored)

  -- Where the caller's memory is accessible, the structure of moduleUbuntuTest and its buffers
  -- are there, and these do not overlap: whenever one reader, whose buffer is not NULL, has its
  -- bytes ready in the output buffer and still has to copy them, another waits for as many at
  -- least, and at most a buffer, and a writer is about to start with as many as the other reader
  -- waits for, there is a run in which the first reader returns with the bytes of that writer
  -- plus 2, modulo 256, in place of its own.
  pub overtaken :
      i ≢ i'
      → Fits k s.dev.globals size'
      → (asked.read i).size ≤ size'
      → (asked.read i).buf ≢ 0
      → (asked.write j).size ≡ size'
      → s.reader i ≡ Reader.bumped
      → s.reader i' ≡ Reader.waiting
      → s.writer j ≡ Writer.starting
      → (t : System) × Reach k asked s t
        × (t.reader i ≡ Reader.finished)
        × ((a : ℕ)
            → a < (asked.read i).size
            → t.dev.user ((asked.read i).buf + a) ≡ (s.dev.user (from + a) + 2) % 256)
  overtaken ne fit le to same ready waits starts = (
    _,
    later
        (later
          (later
            (later
              (later
                (later
                  (later
                    (later here
                      (fill j starts (ground (arith, same, fit.size_le)) (copied same fit.apart.0)))
                    (wake j (ground (arith, ne, ready, waits, starts))))
                  (enable j (ground (arith, ne, ready, waits, starts))))
                (see_set i' (ground (arith, ne, ready, waits, starts)) (λ z. omega (arith, z))))
              (reset i' (ground (arith, ne, ready, waits, starts))))
            (bump i' (ground (arith, ne, ready, waits, starts))
              (for_range-bump_byte k size' 0 _ fit.apart (ground (arith, fit.size_le)))))
          (copy_out i (ground (arith, ne, ready, waits, starts)) (
            copy_to_user-there k (asked.read i).buf s.dev.globals.p_output_data (asked.read i).size
              _ fit.apart.1)))
        (log_out i (ground (arith, ne, ready))
          (log_user-there k (asked.read i).buf (asked.read i).size _ to)),
    ground (arith, ne, ready),
    λ a lt.
        copies.to_user _ s.dev.user _ (asked.read i).buf s.dev.globals.p_output_data
          (asked.read i).size ((asked.read i).buf + a)
        ∙ delivered a lt le,
  )
