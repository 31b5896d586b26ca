-- ===== src/LibMem/Number.antt =====
-- Numbers and their bytes, the low byte first.
use native.Mathlib.Nat.{
  div-div-eq-div-mul, mod-add-div', add-mul-mod_self_left, mod-eq_of_lt, mod-lt, mul_assoc,
  mul_comm, add-zero, one-le-pow, pow-succ',
}
use driver_module_test.Prelude.{
  ℕ, zero, suc, ◌+◌, ◌*◌, ◌/◌, ◌%◌, ◌^◌, ◌<◌, ◌≡◌, refl, sym, ap, ◌∙◌, arith,
}
use driver_module_test.LibMem.{number}

-- Only the bytes read matter.
pub number-cong :
    (n : ℕ) (f g : ℕ → ℕ) (a b : ℕ)
    → ((i : ℕ) → i < n → f (a + i) ≡ g (b + i))
    → number n f a ≡ number n g b
number-cong zero f g a b h = refl
number-cong (suc n) f g a b h =
    ground (arith, h 0, number-cong n f g (suc a) (suc b) (λ i lt. ground (arith, h (suc i))))

-- The low byte of a remainder, and the others.
mod-mul : (v m : ℕ) → 0 < m → v % (256 * m) ≡ v % 256 + 256 * (v / 256 % m)
mod-mul v m h =
    let q = v / 256 % m in
    let whole : v ≡ v % 256 + 256 * q + 256 * m * (v / 256 / m) =
      omega (
        arith,
        mod-add-div' (v / 256) m,
        mul_assoc 256 m (v / 256 / m),
        mul_comm m (v / 256 / m),
      ) in
    ap (λ x. x % (256 * m)) whole
    ∙ add-mul-mod_self_left (v % 256 + 256 * q) (256 * m) (v / 256 / m)
    ∙ mod-eq_of_lt (omega (arith, mod-lt (v / 256) h))

-- The number in the bytes of `v` is `v`, cut to that many bytes.
pub number-bytes :
    (n v a : ℕ) (f : ℕ → ℕ)
    → ((i : ℕ) → i < n → f (a + i) ≡ v / 256 ^ i % 256)
    → number n f a ≡ v % 256 ^ n
number-bytes zero v a f h = omega arith
number-bytes (suc n) v a f h =
    let next : (i : ℕ) → i < n → f (suc a + i) ≡ v / 256 / 256 ^ i % 256 = λ i lt.
      ap f (omega arith)
      ∙ h (suc i) (omega arith)
      ∙ ap (λ x. v / x % 256) (pow-succ' 256 i)
      ∙ ap (λ x. x % 256) (sym (div-div-eq-div-mul v 256 (256 ^ i))) in
    let rest : number n f (suc a) ≡ v / 256 % 256 ^ n = number-bytes n (v / 256) (suc a) f next in
    omega (
      arith,
      rest,
      mod-mul v (256 ^ n) (one-le-pow n 256 (omega arith)),
      ap (λ x. v % x) (pow-succ' 256 n),
      ap f (add-zero a),
      h 0 (omega arith),
    )
