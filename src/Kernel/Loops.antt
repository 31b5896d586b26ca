-- ===== src/Kernel/Loops.antt =====
-- Counted loops of a driver.
use driver_module_test.Prelude.{ℕ, zero, suc}
use driver_module_test.Kernel.{M, pure, ◌>>◌}

-- for (j = i; j < i + n; j++) body (j)
abbrev pub for_range : {G : Type 0} → ℕ → ℕ → (ℕ → M G (Unit {0})) → M G (Unit {0})
for_range zero i body = pure tt
for_range (suc n) i body = body i >> for_range n (suc i) body
