-- ===== src/Prelude/Blit.antt =====
-- Copying a run of bytes from one store to another.
use Prim.Native.Nat.{ℕ, suc, ◌+◌, ◌-◌, ◌<◌}
use mathlib.Core.Path.{◌≡◌}
use mathlib.Core.Bool.{◌&&◌}
use native.Mathlib.Omega.{arith}
use driver_module_test.Prelude.Tests.{leb, ltb, if◌then◌else◌}
use driver_module_test.Prelude.Update.{update}

-- `n` bytes of `src`, from `from` on, copied to `to`.
abbrev pub blit : (dst src : ℕ → ℕ) → (to from n : ℕ) → ℕ → ℕ
blit dst src to from n a = if leb to a && ltb a (to + n) then src (from + (a - to)) else dst a

-- The same, and zeros in the `rest` bytes behind it.
abbrev pub padded : (dst src : ℕ → ℕ) → (to from n rest : ℕ) → ℕ → ℕ
padded dst src to from n rest a =
    if leb (to + n) a && ltb a (to + n + rest) then 0 else blit dst src to from n a

module _ (dst src : ℕ → ℕ) (to from : ℕ) where
  -- One more byte at the front.
  pub blit-suc :
      (i n a : ℕ)
      → blit (update dst (to + i) (src (from + i))) src (to + suc i) (from + suc i) n a
        ≡ blit dst src (to + i) (from + i) (suc n) a
  blit-suc i n a = ground arith

  pub blit-zero : (i a : ℕ) → blit dst src (to + i) (from + i) 0 a ≡ dst a
  blit-zero i a = ground arith

  pub blit-start : (n a : ℕ) → blit dst src (to + 0) (from + 0) n a ≡ blit dst src to from n a
  blit-start n a = ground arith

pub blit-cong :
    (dst f g : ℕ → ℕ) (to x y n a : ℕ)
    → ((i : ℕ) → i < n → f (x + i) ≡ g (y + i))
    → blit dst f to x n a ≡ blit dst g to y n a
blit-cong dst f g to x y n a h = ground (arith, h (a - to))
