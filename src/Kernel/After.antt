-- ===== src/Kernel/After.antt =====
-- A postcondition for a run that returns, and one for a run that stops at a NULL access; a run that
-- ends for want of fuel has none.
use driver_module_test.Prelude.{◌≡◌}
use mathlib.Core.Path.{subst}
use driver_module_test.Kernel.{St, Run, ok, oops, out_of_fuel, M, and_then}

module _ {G A : Type 0} where
  abbrev pub After : (A → St G → Type 0) → (St G → Type 0) → Run G A → Type 0
  After P O (ok a s) = P a s
  After P O (oops s) = O s
  After P O (out_of_fuel s) = ⊥

  pub After-ok :
      (P : A → St G → Type 0) (O : St G → Type 0) (r : Run G A) {a : A} {s : St G}
      → After P O r
      → r ≡ ok a s
      → P a s
  After-ok P O r h e = subst (After P O) e h

  pub After-and :
      (P Q : A → St G → Type 0) (O : St G → Type 0) (r : Run G A)
      → After P O r
      → After Q O r
      → After (λ a s. P a s × Q a s) O r
  After-and P Q O (ok a s) p q = (p, q)
  After-and P Q O (oops s) p q = p
  After-and P Q O (out_of_fuel s) p q = p

  pub After-both :
      (P Q : A → St G → Type 0) (O U : St G → Type 0) (r : Run G A)
      → After P O r
      → After Q U r
      → After (λ a s. P a s × Q a s) (λ s. O s × U s) r
  After-both P Q O U (ok a s) p q = (p, q)
  After-both P Q O U (oops s) p q = (p, q)
  After-both P Q O U (out_of_fuel s) p q = p

  pub After-mono :
      (P Q : A → St G → Type 0) (O : St G → Type 0) (r : Run G A)
      → After P O r
      → ((a : A) (s : St G) → P a s → Q a s)
      → After Q O r
  After-mono P Q O (ok a s) p weaken = weaken a s p
  After-mono P Q O (oops s) p weaken = p
  After-mono P Q O (out_of_fuel s) p weaken = p

module _ {G A B : Type 0} where
  -- First `r`, then `f`.
  pub After-bind :
      (P : A → St G → Type 0) (Q : B → St G → Type 0) (O : St G → Type 0) (r : Run G A)
      (f : A → M G B)
      → After P O r
      → ((a : A) (t : St G) → P a t → After Q O (f a t))
      → After Q O (and_then r f)
  After-bind P Q O (ok a s) f h next = next a s h
  After-bind P Q O (oops s) f h next = h
  After-bind P Q O (out_of_fuel s) f h next = h

module _ {G A I : Type 0} where
  -- A run has one end, so that postconditions for each `i` are one for all.
  pub After-all :
      (P : I → A → St G → Type 0) (O : St G → Type 0) (r : Run G A) (i : I)
      → ((j : I) → After (P j) O r)
      → After (λ a s. (j : I) → P j a s) O r
  After-all P O (ok a s) i h = h
  After-all P O (oops s) i h = h i
  After-all P O (out_of_fuel s) i h = h i
