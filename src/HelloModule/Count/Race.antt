-- ===== src/HelloModule/Count/Race.antt =====
-- The open count of moduleUbuntuTest has no lock.
use driver_module_test.Prelude.{ℕ, ℤ, ◌≡◌, ◌≢◌, ap, arith}
use driver_module_test.Kernel.{St, ok}
use driver_module_test.HelloModule.{MyDev, inc, dec, hello_open}
use driver_module_test.HelloModule.Count.{
  dec-inc, Caller, Sessions, Reach, open_count, open_read, open_store, close_read, close_store,
  here, later,
}

module _ (s : Sessions) (i : ℕ) where
  pub hello_open-Reach :
      {n : ℤ} {t : St MyDev}
      → hello_open s.dev ≡ ok n t
      → s.caller i ≡ Caller.outside
      → (u : Sessions) × Reach s u × (u.dev ≡ t) × (u.caller i ≡ Caller.opened)
  hello_open-Reach e out = (
    _,
    later (later here (open_read i out)) (open_store i {n = open_count s} (ground arith)),
    ground (arith, e),
    ground arith,
  )

  module _ (j : ℕ) (ne : i ≢ j) where
    -- In the interleaving of callers that open and close the device of moduleUbuntuTest, where
    -- ++ and -- read the open count and then store it: for any two callers that are before
    -- their open there is a run in which both open and close it, and which leaves the count one
    -- lower than it was.
    pub open_close-drift :
        s.caller i ≡ Caller.outside
        → s.caller j ≡ Caller.outside
        → (t : Sessions) × Reach s t
          × (t.caller i ≡ Caller.closed)
          × (t.caller j ≡ Caller.closed)
          × (open_count t ≡ dec (open_count s))
    open_close-drift out out' = (
      _,
      later
          (later
            (later
              (later
                (later
                  (later
                    (later (later here (open_read i out)) (open_read j (ground (arith, ne, out'))))
                    (open_store i {n = open_count s} (ground (arith, ne))))
                  (open_store j {n = open_count s} (ground (arith, ne))))
                (close_read i (ground (arith, ne))))
              (close_store i {n = inc (open_count s)} (ground (arith, ne))))
            (close_read j (ground (arith, ne))))
          (close_store j {n = dec (inc (open_count s))} (ground (arith, ne))),
      ground (arith, ne),
      ground (arith, ne),
      ap dec (dec-inc (open_count s)),
    )
