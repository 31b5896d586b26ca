-- ===== src/Prelude/Update.antt =====
-- Functions on numbers as stores: one value replaced.
use Prim.Native.Nat.{ℕ}
use driver_module_test.Prelude.Tests.{◌==◌, if◌then◌else◌}

abbrev pub update {ℓ} : {A : Type ℓ} → (ℕ → A) → ℕ → A → ℕ → A
update f i v j = if i == j then v else f j
