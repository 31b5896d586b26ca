-- ===== src/HelloModule/Init/Release.antt =====
-- What moduleUbuntuTest holds after it is unloaded, and what it touches after it gave it back.
use driver_module_test.Prelude.{
  ◌&&◌, ◌≢◌, ℕ, ◌+◌, pos, is_neg, ◌≡◌, refl, ◌≤◌, arith, Bool, true, false, List, [], ◌∷◌, ◌==◌,
  if◌then◌else◌,
}
use driver_module_test.Kernel.{Event, Kernel, St, M, pure, final, ◌>>=◌, ◌>>◌}
use driver_module_test.Kernel.After.{After, After-and, After-bind}
use driver_module_test.Kernel.Held.{Resource, held}
use driver_module_test.Chrdev.Steps.{bit}
use driver_module_test.HelloModule.{MyDev}
use driver_module_test.HelloModule.Init.Ready.{hello_init-Ready}
use driver_module_test.HelloModule.Init.{init_my_dev, hello_init, hello_exit}

-- The stores to memory that the driver does not hold.
abbrev pub dead_stores : List Event → ℕ
dead_stores [] = 0
dead_stores (Event.store a ∷ h) = (if held (Resource.memory a) h == 0 then 1 else 0) + dead_stores h
dead_stores (_ ∷ h) = dead_stores h

-- Loading, and unloading if that went well; true where it did.
abbrev pub hello_life : Kernel → M MyDev Bool
hello_life k = do r ← hello_init k; if is_neg r then pure false else (do hello_exit k; pure true)

-- What the variables say is held after the first part of the load, and after all of it.
abbrev early : MyDev → Resource → ℕ
early g (Resource.memory a) =
    bit (g.my_dev == a) + (bit (g.p_output_data == a) + bit (g.p_input_data == a))
early g r = 0

abbrev pub owned : MyDev → Resource → ℕ
owned g (Resource.cdev b i) = bit (b == g.my_dev && i == 0)
owned g (Resource.region d n) = bit (d == g.cdev_dev && n == 1)
owned g (Resource.device_class c) = bit (c == g.my_device_class)
owned g (Resource.node c d) = bit (c == g.my_device_class && d == g.cdev_dev)
owned g r = early g r

abbrev IsMissing : St MyDev → Type 0
IsMissing t = t.globals.my_dev ≡ 0

-- The kernel's macros put together the numbers that they take apart.
abbrev pub NumbersAgree : Kernel → Type 0
NumbersAgree k = (i : ℕ) → k.mkdev (k.major (k.allocated_dev i)) (pos 0) ≡ k.allocated_dev i

module _ (k : Kernel) (s : St MyDev) where
  init_my_dev-early :
      (r : Resource)
      → held r s.history ≡ 0
      → After (λ _ t. held r t.history ≤ early t.globals r) IsMissing (init_my_dev k s)
  unfolding init_my_dev
  init_my_dev-early (Resource.memory a) h = ground arith
  init_my_dev-early _ h = ground arith

  pub hello_init-owned :
      NumbersAgree k
      → (r : Resource) → held r s.history ≡ 0
      → After
          (λ n t. is_neg n ≡ false → held r t.history ≤ owned t.globals r)
          IsMissing
          (hello_init k s)
  unfolding hello_init
  hello_init-owned law (Resource.memory a) h =
      After-bind _ _ IsMissing (init_my_dev k s) _ (init_my_dev-early (Resource.memory a) h)
        (λ _ t e. ground arith)
  hello_init-owned law (Resource.region d n) h =
      After-bind _ _ IsMissing (init_my_dev k s) _ (init_my_dev-early (Resource.region d n) h)
        (λ _ t e. ground (arith, law t.tick))
  hello_init-owned law r h =
      After-bind _ _ IsMissing (init_my_dev k s) _ (init_my_dev-early r h) (λ _ t e. ground arith)

  init_my_dev-structure :
      After
        (λ _ t. t.globals.my_dev ≢ 0 → 1 ≤ held (Resource.memory t.globals.my_dev) t.history)
        IsMissing
        (init_my_dev k s)
  unfolding init_my_dev
  init_my_dev-structure = ground arith

  -- However the load ends, but for a NULL access, the structure is held.
  pub hello_init-structure :
      After
        (λ _ t. 1 ≤ held (Resource.memory t.globals.my_dev) t.history)
        IsMissing
        (hello_init k s)
  unfolding hello_init
  hello_init-structure =
      After-bind _ _ IsMissing (init_my_dev k s) _ init_my_dev-structure
        (λ _ t e. ground (arith, e))

  pub hello_exit-there :
      (O : St MyDev → Type 0) (r : Resource)
      → s.globals.my_dev ≢ 0
      → held r s.history ≤ owned s.globals r
      → After (λ _ t. held r t.history ≡ 0) O (hello_exit k s)
  unfolding hello_exit
  hello_exit-there O (Resource.memory a) there h = ground arith
  hello_exit-there O _ there h = ground arith

module _ (k : Kernel) (r : Resource) where
  unloaded-held :
      (refused : Bool) (t : St MyDev)
      → t.globals.my_dev ≢ 0
      → (refused ≡ false → held r t.history ≤ owned t.globals r)
      → After
          (λ loaded u. loaded ≡ true → held r u.history ≡ 0)
          IsMissing
          ((if refused then pure false else (do hello_exit k; pure true)) t)
  unloaded-held true t there h = λ e. cc
  unloaded-held false t there h =
      After-bind _ _ IsMissing (hello_exit k t) _ (hello_exit-there k t IsMissing r there (h refl))
        (λ _ u e. λ _. e)

module _ (k : Kernel) (s : St MyDev) where
  -- Let the kernel's macros put together the numbers that they take apart. If moduleUbuntuTest is
  -- loaded, the load returns 0 and it is unloaded, then a resource that was not held before is
  -- not held after, whichever of the load's calls failed; and a NULL access is made only while
  -- my_dev is NULL.
  pub hello_life-held :
      NumbersAgree k
      → (r : Resource) → held r s.history ≡ 0
      → After
          (λ loaded t. loaded ≡ true → held r t.history ≡ 0)
          (λ t. t.globals.my_dev ≡ 0)
          (hello_life k s)
  hello_life-held law r h =
      After-bind _ _ IsMissing (hello_init k s) _
        (After-and _ _ _ (hello_init k s) (hello_init-owned k s law r h) (hello_init-Ready k s))
        (λ n t (own, (_, there, _)). unloaded-held k r (is_neg n) t there own)

  -- Where the structure of moduleUbuntuTest is there and held once at most, hello_exit stores
  -- twice to memory that is not held any more.
  pub hello_exit-dead_stores :
      s.globals.my_dev ≢ 0
      → held (Resource.memory s.globals.my_dev) s.history ≤ 1
      → let t = final (hello_exit k s) in dead_stores t.history ≡ 2 + dead_stores s.history
  unfolding hello_exit
  hello_exit-dead_stores there one = ground arith
