-- ===== src/Programs/ModuleApp/Session.antt =====
-- moduleUbuntuTest from its load to its unload, with moduleAppTest.c run in between.
use mathlib.Core.Path.{subst}
use driver_module_test.Prelude.{
  ℕ, ℤ, Bool, if◌then◌else◌, ◌≤◌, pos, negsuc, is_neg, true, false, ◌≡◌, ◌≢◌, ◌⊎◌, inl, inr, refl,
  sym, ap, ◌∙◌, arith,
}
use driver_module_test.DeviceFile.{Syscalls, Dispatches}
use driver_module_test.Kernel.{Kernel, St, M, ok, and_then}
use driver_module_test.Kernel.Held.{Resource, held}
use driver_module_test.Kernel.After.{After, After-and, After-mono}
use driver_module_test.HelloModule.{MyDev, hello_ops}
use driver_module_test.HelloModule.Transfer.{Apart, CopiesAll}
use driver_module_test.HelloModule.Init.{hello_init, hello_exit}
use driver_module_test.HelloModule.Init.Ready.{
  is_cdev_refused, IsFresh, IsUnfinished, KeepsApart, hello_init-Ready, hello_init-Apart,
}
use driver_module_test.HelloModule.Init.Release.{
  owned, hello_init-owned, hello_init-structure, hello_exit-there, NumbersAgree,
}
use driver_module_test.Programs.ModuleApp.{main, round_on, rounds}
use driver_module_test.Programs.ModuleApp.Rounds.{Ends, main-Ends}

owned-enable_read :
    (g : MyDev) (e : ℕ) (r : Resource) → owned (record g { enable_read = e }) r ≡ owned g r
owned-enable_read g e (Resource.memory a) = refl
owned-enable_read g e _ = refl

-- A node whose cdev has no operations is not opened.
abbrev pub Refuses : Syscalls MyDev → Type 0
Refuses sys =
    (s : St MyDev)
    → s.globals.file_operation ≡ false
    → (e : ℕ) × (sys.open_file s ≡ ok (negsuc e) s)

module _ (k : Kernel) (copies : CopiesAll k) (others : M MyDev (Unit {0})) (write_buff : ℕ)
    (sys : Syscalls MyDev) (laws : Dispatches (hello_ops k others) sys) (refuses : Refuses sys)
    (ne : write_buff ≢ 0) where
  unfinished-Ends :
      (s : St MyDev)
      → s.globals.file_operation ≡ false
      → After (Ends s) (λ t. ⊥) (main write_buff sys s)
  unfolding main round_on
  unfinished-Ends s e =
      let (n, refused) = refuses s e in
      subst (After (Ends s) (λ t. ⊥))
        (sym (ap (λ r. and_then r (round_on write_buff sys (rounds write_buff sys 4))) refused))
        (record { same_globals = refl; same_held = λ r. refl }, inr refl)

  module _ (r : Resource) where
    -- The program, and then the unload.
    abbrev pub Closes : St MyDev → Type 0
    Closes t =
        After (λ m u. Ends t m u × After (λ _ v. held r v.history ≡ 0) (λ v. ⊥) (hello_exit k u))
          (λ u. ⊥) (main write_buff sys t)

    exit-Closes :
        (t : St MyDev)
        → t.globals.my_dev ≢ 0
        → held r t.history ≤ owned t.globals r
        → After (Ends t) (λ u. ⊥) (main write_buff sys t)
        → Closes t
    exit-Closes t there own run =
        After-mono _ _ _ (main write_buff sys t) run (λ _ u (settled, end). (
          (settled, end),
          hello_exit-there k u (λ v. ⊥) r
              (λ e. there (sym (ap (λ (g : MyDev). g.my_dev) settled.same_globals) ∙ e))
              (subst (λ n. held r u.history ≤ n)
                (sym (
                  ap (λ g. owned g r) settled.same_globals
                  ∙ owned-enable_read t.globals u.globals.enable_read r))
                (subst (λ n. n ≤ owned t.globals r) (sym (settled.same_held r)) own)),
        ))

    loaded-Closes :
        (t : St MyDev)
        → t.globals.my_dev ≢ 0
        → held r t.history ≤ owned t.globals r
        → IsFresh t ⊎ IsUnfinished t
        → (t.globals.file_operation ≡ true → Apart t.globals.p_input_data t.globals.p_output_data)
        → Closes t
    loaded-Closes t there own (inl fresh) apart = exit-Closes t there own (
        main-Ends k copies others write_buff sys laws ne t
          (record { device = there; apart = apart fresh.0; size_le = omega arith }))
    loaded-Closes t there own (inr unfinished) apart =
        exit-Closes t there own (unfinished-Ends t unfinished.0)

    -- What a load returns, and what may follow.
    abbrev pub Continues : ℤ → St MyDev → Type 0
    Continues (pos n) t = (n ≡ 0) × Closes t
    Continues (negsuc n) t = (n ≡ 0) × (1 ≤ held (Resource.memory t.globals.my_dev) t.history)

    Ready-Continues :
        (refused : Bool) (t : St MyDev)
        → (refused ≡ false → Closes t)
        → 1 ≤ held (Resource.memory t.globals.my_dev) t.history
        → Continues (if refused then negsuc 0 else pos 0) t
    Ready-Continues true t h kept = (refl, kept)
    Ready-Continues false t h kept = (refl, h refl)

    -- Let a resource not be held, the calls of moduleUbuntuTest/moduleApp go to the handlers of
    -- moduleUbuntuTest, a node whose cdev has no operations not be opened, the caller's memory
    -- be accessible and its buffer not NULL, two blocks that kmalloc gives for buffers one
    -- after the other not overlap, and the kernel's macros put together the numbers that they
    -- take apart. Then a load of moduleUbuntuTest makes a NULL access only while my_dev is
    -- NULL, or it returns -1 with its structure still held, or it returns 0. In the last case
    -- the program, whatever was refused, runs without a NULL access and ends with the device's
    -- variables but enable_read, and with what is held, as after the load: it returns 0, with
    -- enable_read at 1 and the bytes 0 to 9 at the start of the input buffer, or it returns -1.
    -- The unload that follows makes no NULL access, and the resource is not held after it.
    pub hello_init-Continues :
        KeepsApart k
        → NumbersAgree k
        → (s : St MyDev) → held r s.history ≡ 0
        → After Continues (λ t. t.globals.my_dev ≡ 0) (hello_init k s)
    hello_init-Continues apart law s h =
        After-mono _ _ _ (hello_init k s)
          (After-and _ _ _ (hello_init k s) (hello_init-owned k s law r h) (
            After-and _ _ _ (hello_init k s) (hello_init-Ready k s) (
              After-and _ _ _ (hello_init k s) (hello_init-Apart k s apart)
                (hello_init-structure k s))))
          (λ n t (own, ((result, there, ready), (disjoint, kept))).
            subst (λ m. Continues m t) (sym result)
              (Ready-Continues (is_cdev_refused t.history) t
                (λ accepted.
                  loaded-Closes t there
                    (own (
                      ap is_neg result ∙ ap (λ b. is_neg (if b then negsuc 0 else pos 0)) accepted))
                    ready disjoint)
                kept))
