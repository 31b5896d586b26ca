-- ===== src/LibMem/Main.antt =====
-- The `main` of libmem.c: three reads at one address, of four, two and one byte.
use driver_module_test.Prelude.{ℕ, ◌+◌, ◌≤◌, ◌≡◌, refl, arith}
use driver_module_test.LibMem.{Os, Proc, Outcome, returned, faulted, read_dram_raw}
use driver_module_test.LibMem.Transfer.{left_open, Delivers, read_dram_raw-Delivers}

abbrev dram_addr : ℕ
dram_addr = 0xf000d018

-- The next call, whatever the last one returned.
abbrev pub and_go_on : Outcome → (Proc → Outcome) → Outcome
and_go_on (returned ret s) next = next s
and_go_on (faulted s) next = faulted s

module _ (os : Os) where
  pub main : Proc → Outcome
  main s = and_go_on (read_dram_raw os dram_addr 4 s) (λ t.
      and_go_on (read_dram_raw os dram_addr 2 t)
        (λ u. and_go_on (read_dram_raw os dram_addr 1 u) (λ v. returned 0 v)))

  -- It returns 0 whatever fails, with at most `n` descriptors more than before.
  abbrev Exits : (n : ℕ) → Proc → Outcome → Type 0
  Exits n s (returned ret t) = (ret ≡ 0) × (left_open t.calls ≤ left_open s.calls + n)
  Exits n s (faulted t) = ⊥

  next_Exits :
      (size n : ℕ) (s : Proc) (o : Outcome) (next : Proc → Outcome)
      → Delivers os dram_addr size s o
      → ((t : Proc) → Exits n t (next t))
      → Exits (n + 1) s (and_go_on o next)
  next_Exits size n s (returned ret t) next d h = more (next t) (h t)
    where
      more : (o : Outcome) → Exits n t o → Exits (n + 1) s o
      more (returned r u) (z, le) = (z, ground (arith, le, d))
      more (faulted u) e = e
  next_Exits size n s (faulted t) next d h = d

  read_Exits :
      (size n : ℕ) (s : Proc) (next : Proc → Outcome)
      → ((t : Proc) → Exits n t (next t))
      → Exits (n + 1) s (and_go_on (read_dram_raw os dram_addr size s) next)
  read_Exits size n s next h =
      next_Exits size n s _ next (read_dram_raw-Delivers os dram_addr size s) h

  pub main-Exits : (s : Proc) → Exits (0 + 1 + 1 + 1) s (main s)
  unfolding main
  main-Exits s =
      read_Exits 4 (0 + 1 + 1) s _
        (λ t. read_Exits 2 (0 + 1) t _ (λ u. read_Exits 1 0 u _ (λ v. (refl, omega arith))))
