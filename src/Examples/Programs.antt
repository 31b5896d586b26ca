-- ===== src/Examples/Programs.antt =====
-- The theorems on the programs, where the system opens the node and hands each call to the driver.
use driver_module_test.Prelude.{
  Bool, true, false, if◌then◌else◌, ℕ, ℤ, pos, negsuc, ◌≡◌, ◌⊎◌, inl, inr, refl, ap, arith, Option,
  some, none, ◌∷◌, ◌++◌,
}
use driver_module_test.DeviceFile.{FileOperations, Syscalls, Dispatches}
use driver_module_test.Kernel.{Event, St, final, ok, M, and_then}
use driver_module_test.Kernel.After.{After}
use driver_module_test.Platform
use driver_module_test.Platform.Leds.{hello_misc_device}
use driver_module_test.Platform.Param.{Parameters}
use driver_module_test.Platform.Param as Param
use driver_module_test.Platform.Param.Log.{after, loaded}
use driver_module_test.Chrdev.CharDriver.Operations.{hello_ops}
use driver_module_test.HelloModule
use driver_module_test.HelloModule.{MyDev}
use driver_module_test.Programs.HelloTest
use driver_module_test.Programs.HelloTest.{values, session-Lights}
use driver_module_test.Programs.ParamTest
use driver_module_test.Programs.ParamTest.{replies, session-Logs}
use driver_module_test.HelloModule.Init
use driver_module_test.Kernel.Held.{Resource}
use driver_module_test.Chrdev.Steps.{NoBuffer}
use driver_module_test.Chrdev.CharDriver
use driver_module_test.Programs.ModuleApp.Session
use driver_module_test.Programs.ModuleApp.Session.{Refuses}
use driver_module_test.Programs.MyInvokeLeds.Session as LedsSession
use driver_module_test.Examples.Chrdev.{unset, agrees}
use driver_module_test.Examples.HelloModule.{not_loaded}
use driver_module_test.Examples.{obliging, obliging-CopiesAll, at_start}

module _ {G : Type 0} where
  -- A node without the function gives an error.
  abbrev moved : Option ((user size : ℕ) → M G ℤ) → (user size : ℕ) → M G ℤ
  moved none user size s = ok (negsuc 21) s
  moved (some f) user size s = f user size s

  abbrev closed_at : FileOperations G → ℤ → M G ℤ
  closed_at ops (pos fd) s = and_then (ops.release s) (λ _ t. ok (pos 0) t)
  closed_at ops (negsuc e) s = ok (negsuc 0) s

  abbrev through : FileOperations G → Syscalls G
  through ops = record {
    open_file = λ s. and_then (ops.open_file s) (λ _ t. ok (pos 3) t);
    close = closed_at ops;
    ioctl = λ fd cmd arg. ops.unlocked_ioctl cmd arg;
    read = λ fd. moved ops.read;
    write = λ fd. moved ops.write;
  }

  moved-some :
      (f : (user size : ℕ) → M G ℤ) (o : Option ((user size : ℕ) → M G ℤ))
      → o ≡ some f
      → (user size : ℕ) (s : St G) → moved o user size s ≡ f user size s
  moved-some f o e user size s = ap (λ x. moved x user size s) e

  through-Dispatches : (ops : FileOperations G) → Dispatches ops (through ops)
  through-Dispatches ops = record {
    opened = λ s. inr (3, refl);
    closed = λ fd s. refl;
    unclosed = λ e s. refl;
    controls = λ fd cmd arg s. refl;
    reads = λ f e fd buf count s. moved-some f ops.read e buf count s;
    writes = λ f e fd buf count s. moved-some f ops.write e buf count s;
  }

abbrev board : St Platform.Globals
board = at_start tt

session-Lights_example :
    values 200
      (final (HelloTest.session obliging board (through (hello_misc_device obliging).fops))).history
    ≡ 1 ∷ 0 ∷ 1 ∷ 0 ∷ values 200 board.history
session-Lights_example =
    session-Lights obliging board (through (hello_misc_device obliging).fops)
      (through-Dispatches (hello_misc_device obliging).fops)

-- Two elements of the array are given.
abbrev given : Parameters
given = record { module_arg1 = pos 7; module_arg2 = negsuc 0; int_array = pos; array_num = pos 2 }

session-Logs_example :
    ParamTest.session obliging given (through (Param.hello_misc_device given).fops) board
    ≡ ok tt (after (Event.misc_deregister ∷ (replies given ++ loaded given obliging board)) board)
session-Logs_example =
    session-Logs obliging given (through (Param.hello_misc_device given).fops)
      (through-Dispatches (Param.hello_misc_device given).fops) board

abbrev quiet : M MyDev (Unit {0})
quiet s = ok tt s

-- A cdev without operations is not opened.
abbrev gated : (ops : FileOperations MyDev) → Syscalls MyDev
gated ops = record (through ops) {
  open_file = λ s.
      if s.globals.file_operation
      then and_then (ops.open_file s) (λ _ t. ok (pos 3) t)
      else ok (negsuc 5) s;
}

gated-opened :
    (ops : FileOperations MyDev) (b : Bool) (s : St MyDev)
    → let x = if b then and_then (ops.open_file s) (λ _ t. ok (pos 3) t) else ok (negsuc 5) s in
      ((e : ℕ) × (x ≡ ok (negsuc e) s))
      ⊎ ((fd : ℕ) × (x ≡ and_then (ops.open_file s) (λ _ t. ok (pos fd) t)))
gated-opened ops true s = inr (3, refl)
gated-opened ops false s = inl (5, refl)

gated-Dispatches : (ops : FileOperations MyDev) → Dispatches ops (gated ops)
gated-Dispatches ops = record {
  opened = λ s. gated-opened ops s.globals.file_operation s;
  closed = λ fd s. refl;
  unclosed = λ e s. refl;
  controls = λ fd cmd arg s. refl;
  reads = λ f e fd buf count s. moved-some f ops.read e buf count s;
  writes = λ f e fd buf count s. moved-some f ops.write e buf count s;
}

gated-Refuses : (ops : FileOperations MyDev) → Refuses (gated ops)
gated-Refuses ops s e =
    (5, ap (λ b. if b then and_then (ops.open_file s) (λ _ t. ok (pos 3) t) else ok (negsuc 5) s) e)

abbrev module_ops : FileOperations MyDev
module_ops = HelloModule.hello_ops obliging quiet

hello_init-Continues_example :
    After
      (Session.Continues obliging obliging-CopiesAll quiet 300
        (gated module_ops)
        (gated-Dispatches module_ops)
        (gated-Refuses module_ops)
        (λ e. omega (arith, e))
        (Resource.memory 4096))
      (λ t. t.globals.my_dev ≡ 0)
      (HelloModule.Init.hello_init obliging not_loaded)
hello_init-Continues_example =
    Session.hello_init-Continues obliging obliging-CopiesAll quiet 300 (gated module_ops)
      (gated-Dispatches module_ops) (gated-Refuses module_ops) (λ e. omega (arith, e))
      (Resource.memory 4096) (λ t _ _. inl (omega arith)) (λ i. refl) not_loaded refl

hello_init-Sessions_example :
    After
      (LedsSession.Sessions obliging 512 1024
        (through hello_ops)
        (through-Dispatches hello_ops)
        (inl (omega arith))
        (λ e. omega (arith, e))
        (λ e. omega (arith, e))
        unset
        (Resource.region 262144000 2))
      NoBuffer
      (CharDriver.hello_init obliging unset)
hello_init-Sessions_example =
    LedsSession.hello_init-Sessions obliging 512 1024 (through hello_ops)
      (through-Dispatches hello_ops) (inl (omega arith)) (λ e. omega (arith, e))
      (λ e. omega (arith, e)) unset (Resource.region 262144000 2) agrees
