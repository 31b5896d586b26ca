-- ===== src/HelloModule/Init/Ready.antt =====
-- What the handlers of moduleUbuntuTest find after a load that returned 0.
use driver_module_test.Prelude.{
  ℕ, suc, ◌≤◌, Bool, List, [], ◌∷◌, negsuc, is_neg, ◌+◌, ◌<◌, pos, ◌≡◌, ◌≢◌, ◌⊎◌, arith, true,
  false, if◌then◌else◌,
}
use driver_module_test.Kernel.{Event, Kernel, St}
use driver_module_test.Kernel.After.{After, After-bind}
use driver_module_test.HelloModule.{MyDev, dev_buff_max}
use driver_module_test.HelloModule.Transfer.{Apart}
use driver_module_test.HelloModule.Init.{init_my_dev, hello_init}

-- Nobody has the device open, and both buffers are there and zero.
abbrev pub IsFresh : St MyDev → Type 0
IsFresh t =
    (t.globals.file_operation ≡ true)
    × (t.globals.p_input_data ≢ 0)
    × (t.globals.p_output_data ≢ 0)
    × (t.globals.i_open_count ≡ pos 0)
    × (t.globals.enable_read ≡ 0)
    × ((i : ℕ)
        → i < dev_buff_max
        → (t.memory (t.globals.p_input_data + i) ≡ 0)
          × (t.memory (t.globals.p_output_data + i) ≡ 0))

-- A buffer was refused, and the node gets no operations.
abbrev pub IsUnfinished : St MyDev → Type 0
IsUnfinished t =
    (t.globals.file_operation ≡ false)
    × ((t.globals.p_output_data ≡ 0) ⊎ (t.globals.p_input_data ≡ 0))

abbrev Built : St MyDev → Type 0
Built t = t.globals.my_dev ≢ 0 → IsFresh t ⊎ IsUnfinished t

-- What the last cdev_add of a history said.
abbrev pub is_cdev_refused : List Event → Bool
is_cdev_refused [] = false
is_cdev_refused (Event.cdev_add _ _ _ _ r ∷ h) = is_neg r
is_cdev_refused (_ ∷ h) = is_cdev_refused h

-- Two blocks of memory for buffers, one got right after the other, do not overlap.
abbrev pub KeepsApart : Kernel → Type 0
KeepsApart k =
    (t : ℕ)
    → let p = k.kmalloc t dev_buff_max in
      let q = k.kmalloc (suc t) dev_buff_max in
      p ≢ 0 → q ≢ 0 → (p + dev_buff_max ≤ q) ⊎ (q + dev_buff_max ≤ p)

module _ (k : Kernel) (s : St MyDev) where
  init_my_dev-Built : After (λ _ t. Built t) (λ t. t.globals.my_dev ≡ 0) (init_my_dev k s)
  unfolding init_my_dev
  init_my_dev-Built = ground arith

  -- A load of moduleUbuntuTest makes a NULL access only while my_dev is NULL. Otherwise the
  -- structure is there, and the result is -1 just where cdev_add was refused, and 0 otherwise:
  -- either the operations are set, both buffers are there and zero, and the open count and
  -- enable_read are 0; or the operations are not set, and one of the buffers is NULL.
  pub hello_init-Ready :
      After
        (λ n t.
          (n ≡ (if is_cdev_refused t.history then negsuc 0 else pos 0))
          × (t.globals.my_dev ≢ 0)
          × (IsFresh t ⊎ IsUnfinished t))
        (λ t. t.globals.my_dev ≡ 0)
        (hello_init k s)
  unfolding hello_init
  hello_init-Ready =
      After-bind (λ _ t. Built t) _ (λ t. t.globals.my_dev ≡ 0) (init_my_dev k s) _
        init_my_dev-Built (λ _ t b. ground (arith, b))

  init_my_dev-Apart :
      KeepsApart k
      → After
          (λ _ t.
            t.globals.my_dev ≢ 0
            → t.globals.file_operation ≡ true
            → Apart t.globals.p_input_data t.globals.p_output_data)
          (λ t. t.globals.my_dev ≡ 0)
          (init_my_dev k s)
  unfolding init_my_dev
  init_my_dev-Apart law = ground (arith, law (suc s.tick))

  pub hello_init-Apart :
      KeepsApart k
      → After
          (λ _ t.
            t.globals.file_operation ≡ true → Apart t.globals.p_input_data t.globals.p_output_data)
          (λ t. t.globals.my_dev ≡ 0)
          (hello_init k s)
  unfolding hello_init
  hello_init-Apart law =
      After-bind
        (λ _ t.
          t.globals.my_dev ≢ 0
          → t.globals.file_operation ≡ true
          → Apart t.globals.p_input_data t.globals.p_output_data)
        _ (λ t. t.globals.my_dev ≡ 0) (init_my_dev k s) _ (init_my_dev-Apart law)
        (λ _ t b. ground (arith, b))
