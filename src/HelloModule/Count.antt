-- ===== src/HelloModule/Count.antt =====
-- Callers that open and close the device of moduleUbuntuTest, interleaved at the accesses to
-- `iOpenCount`: `++` and `--` read it, and then store it.
pub mod Race
use driver_module_test.Prelude.{ℕ, zero, suc, ℤ, pos, negsuc, ◌≡◌, refl, update}
use driver_module_test.Kernel.{St}
use driver_module_test.HelloModule.{MyDev, inc, dec}

pub dec-inc : (i : ℤ) → dec (inc i) ≡ i
dec-inc (pos n) = refl
dec-inc (negsuc zero) = refl
dec-inc (negsuc (suc n)) = refl

-- Where a caller is: before its open, inside hello_open with the count that it read, between the
-- two calls, inside hello_release with the count that it read, or behind it.
pub data Caller : Type 0 where
  outside : Caller
  opening : (count : ℤ) → Caller
  opened : Caller
  closing : (count : ℤ) → Caller
  closed : Caller

pub record Sessions : Type 0 where
  pub dev : St MyDev
  pub caller : ℕ → Caller

abbrev pub open_count : Sessions → ℤ
open_count s = s.dev.globals.i_open_count

abbrev pub goes : Sessions → ℕ → Caller → Sessions
goes s i c = record s { caller = update s.caller i c }

abbrev pub counts : Sessions → ℤ → Sessions
counts s n = record s { dev = record s.dev { globals = record s.dev.globals { i_open_count = n } } }

pub data Step (s : Sessions) : Sessions → Type 0 where
  open_read :
      (i : ℕ) → s.caller i ≡ Caller.outside → Step s (goes s i (Caller.opening (open_count s)))
  open_store :
      (i : ℕ) {n : ℤ}
      → s.caller i ≡ Caller.opening n
      → Step s (counts (goes s i Caller.opened) (inc n))
  close_read :
      (i : ℕ) → s.caller i ≡ Caller.opened → Step s (goes s i (Caller.closing (open_count s)))
  close_store :
      (i : ℕ) {n : ℤ}
      → s.caller i ≡ Caller.closing n
      → Step s (counts (goes s i Caller.closed) (dec n))

pub data Reach (s : Sessions) : Sessions → Type 0 where
  here : Reach s s
  later : {t u : Sessions} → Reach s t → Step t u → Reach s u
