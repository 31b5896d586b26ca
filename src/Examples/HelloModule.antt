-- ===== src/Examples/HelloModule.antt =====
-- The theorems on moduleUbuntuTest, at a first load and at ten bytes.
use driver_module_test.Prelude.{
  true, false, ◌*◌, ℕ, ◌+◌, ◌%◌, ◌<◌, ◌≤◌, ℤ, pos, negsuc, ◌≢◌, ◌⊎◌, ◌≡◌, refl, arith, inl, inr,
  ◌∷◌, [], ◌==◌, if◌then◌else◌,
}
use driver_module_test.Kernel.{Event, St, ok, oops, pure, final, ◌>>=◌}
use driver_module_test.Kernel.After.{After}
use driver_module_test.HelloModule.{MyDev, hello_read, hello_write}
use driver_module_test.HelloModule.Init.{hello_init, hello_exit}
use driver_module_test.Kernel.Moments.{IsOrdered}
use driver_module_test.HelloModule.Init.Moments.{hello_life-IsOrdered}
use driver_module_test.HelloModule.Init.Ready.{
  IsFresh, IsUnfinished, is_cdev_refused, hello_init-Ready,
}
use driver_module_test.HelloModule.Init.Release.{dead_stores, hello_life, hello_exit-dead_stores}
use driver_module_test.HelloModule.Count
use driver_module_test.HelloModule.Count.{Caller, Sessions, open_count}
use driver_module_test.HelloModule.Count.Race.{open_close-drift}
use driver_module_test.HelloModule.Transfer.{Fits, after_read, hello_read-bumped}
use driver_module_test.HelloModule.Transfer.NullBuffer.{taken, offered, null-Oops}
use driver_module_test.HelloModule.Transfer.RoundTrip.{
  hello_read-write, after_write, hello_write-blit,
}
use driver_module_test.HelloModule.Wait.{
  Requests, System, Reader, Writer, Reach, see_clear, here, later, moves, enabled,
}
use driver_module_test.HelloModule.Wait.Overtaken.{overtaken}
use driver_module_test.HelloModule.Wait.Invariant.{HasSet, Reach-HasSet}
use driver_module_test.HelloModule.Wait.Lost.{Undisturbed, lost_wakeup}
use driver_module_test.HelloModule.Wait.Progress.{reader-Finishes}
use driver_module_test.HelloModule.Wait.Alone.{woken_up, hello_write-Reach}
use driver_module_test.Examples.Chrdev.{no_class_at_0, needs_class}
use driver_module_test.Examples.{obliging, obliging-CopiesAll, at_start}

abbrev pub open_device : St MyDev
open_device = at_start (record {
  my_dev = 4096;
  my_device_class = 9000;
  cdev_dev = 262144000;
  i_open_count = pos 1;
  p_output_data = 8192;
  p_input_data = 12288;
  enable_read = 0;
  file_operation = true;
})

pub open_device-Fits : Fits obliging open_device.globals 10
open_device-Fits = record {
  device = λ e. omega arith;
  apart = (λ e. omega (arith, e), λ e. omega (arith, e), inr (omega arith));
  size_le = omega arith;
}

hello_read-bumped_example :
    hello_read obliging (pure tt) 700 10 open_device
    ≡ ok (pos 0) (after_read obliging 700 10 open_device)
hello_read-bumped_example =
    hello_read-bumped obliging obliging-CopiesAll (pure tt) 700 10 open_device open_device
      (λ e. omega (arith, e)) (λ e. omega arith) refl open_device-Fits

hello_read-write_example :
    After
      (λ (r : ℤ × ℤ) t.
        (r.0 ≡ pos 0)
        × (r.1 ≡ pos 0)
        × ((i : ℕ) → i < 10 → t.user (700 + i) ≡ (open_device.user (300 + i) + 2) % 256))
      (λ t. ⊥)
      ((do
        wrote ← hello_write obliging 300 10
        got ← hello_read obliging (pure tt) 700 10
        pure (wrote, got))
        open_device)
hello_read-write_example =
    hello_read-write obliging obliging-CopiesAll 300 700 10 open_device (λ e. omega (arith, e))
      (λ e. omega (arith, e)) open_device-Fits

null-Oops_example :
    (hello_write obliging 0 10 open_device
      ≡ oops (taken obliging 10 open_device (omega arith) open_device-Fits))
    × (hello_read obliging (pure tt) 0 10 open_device
        ≡ oops (offered obliging 10 open_device (omega arith) open_device-Fits))
null-Oops_example = null-Oops obliging 10 open_device (omega arith) open_device-Fits

abbrev pub not_loaded : St MyDev
not_loaded = at_start (record {
  my_dev = 0;
  my_device_class = 0;
  cdev_dev = 0;
  i_open_count = pos 0;
  p_output_data = 0;
  p_input_data = 0;
  enable_read = 0;
  file_operation = false;
})

hello_init-Ready_example :
    After
      (λ n t.
        (n ≡ (if is_cdev_refused t.history then negsuc 0 else pos 0))
        × (t.globals.my_dev ≢ 0)
        × (IsFresh t ⊎ IsUnfinished t))
      (λ t. t.globals.my_dev ≡ 0)
      (hello_init obliging not_loaded)
hello_init-Ready_example = hello_init-Ready obliging not_loaded

hello_life-IsOrdered_example :
    After
      (λ _ t. IsOrdered 4096 0 9000 262144000 t)
      (IsOrdered 4096 0 9000 262144000)
      (hello_life no_class_at_0 not_loaded)
hello_life-IsOrdered_example =
    hello_life-IsOrdered no_class_at_0 needs_class 4096 0 9000 262144000 not_loaded
      (inl refl, inl refl) refl refl

abbrev about_to_exit : St MyDev
about_to_exit = record open_device { history = Event.kmalloc 160 4096 ∷ [] }

hello_exit-dead_stores_example :
    dead_stores (final (hello_exit obliging about_to_exit)).history
    ≡ 2 + dead_stores about_to_exit.history
hello_exit-dead_stores_example =
    hello_exit-dead_stores obliging about_to_exit (λ e. omega arith) (omega arith)

-- Reader 0 sleeps, reader 1 stands before its test, reader 2 before its last copy, and no writer has
-- started.
abbrev one_asleep : System
one_asleep = record {
  dev = open_device;
  reader =
      λ i. if i == 0 then Reader.asleep else (if i == 2 then Reader.bumped else Reader.waiting);
  writer = λ j. Writer.starting;
}

-- Ten bytes for each reader, and ten from each writer.
abbrev ten_each : Requests
ten_each = record {
  read = λ i. record { buf = 700 + 16 * i; size = 10 };
  write = λ j. record { buf = 300; size = 10 };
}

-- A run in which writer 3 goes through.
abbrev through_one :
    (t : System) × Reach obliging ten_each one_asleep t
    × (t.writer 3 ≡ Writer.finished)
    × (enabled t ≡ 1)
    × ((u : System) → Undisturbed obliging ten_each 0 t u → u.reader 0 ≡ Reader.asleep)
through_one =
    lost_wakeup obliging ten_each 0 3 one_asleep refl refl refl (λ e. omega (arith, e))
      (omega arith) (λ e. omega (arith, e))

abbrev after_one : System
after_one = through_one.0

Reach-HasSet_example : (j : ℕ) × HasSet obliging ten_each (after_one.writer j) × (10 ≤ 128)
Reach-HasSet_example =
    Reach-HasSet obliging ten_each one_asleep after_one through_one.1 (λ j. refl) refl
      (λ z. omega (arith, through_one.3, z))

-- Writer 3 behind its wake-up, and then reader 0 asleep again.
abbrev asleep_again : System
asleep_again = moves (woken_up obliging ten_each one_asleep 3) 0 Reader.asleep

hello_write-Reach_example :
    (u : System) × Reach obliging ten_each one_asleep u
    × (u.dev ≡ after_write obliging 300 10 open_device)
    × (u.writer 3 ≡ Writer.finished)
unfolding hello_write
hello_write-Reach_example =
    hello_write-Reach obliging ten_each one_asleep 3 (pure tt) asleep_again refl (omega arith)
      (later here (see_clear 0 refl refl)) refl refl
      (hello_write-blit obliging obliging-CopiesAll 300 10 open_device (λ e. omega (arith, e))
        open_device-Fits)

lost_wakeup_example :
    (t : System) × Reach obliging ten_each one_asleep t
    × (t.writer 3 ≡ Writer.finished)
    × (enabled t ≡ 1)
    × ((u : System) → Undisturbed obliging ten_each 0 t u → u.reader 0 ≡ Reader.asleep)
lost_wakeup_example =
    lost_wakeup obliging ten_each 0 3 one_asleep refl refl refl (λ e. omega (arith, e))
      (omega arith) (λ e. omega (arith, e))

overtaken_example :
    (t : System) × Reach obliging ten_each one_asleep t
    × (t.reader 2 ≡ Reader.finished)
    × ((a : ℕ) → a < 10 → t.dev.user (732 + a) ≡ (open_device.user (300 + a) + 2) % 256)
overtaken_example =
    overtaken obliging ten_each obliging-CopiesAll 2 1 3 one_asleep (λ e. omega (arith, e))
      open_device-Fits (omega arith) (λ e. omega (arith, e)) refl refl refl refl

reader-Finishes_example :
    (t : System) × Reach obliging ten_each after_one t × (t.reader 0 ≡ Reader.finished)
reader-Finishes_example =
    reader-Finishes obliging ten_each obliging-CopiesAll 0 (λ e. omega (arith, e)) one_asleep
      after_one open_device-Fits through_one.1

-- Two programs before their open, where one other has the device open.
abbrev two_callers : Sessions
two_callers = record { dev = open_device; caller = λ i. Caller.outside }

open_close-drift_example :
    (t : Sessions) × Count.Reach two_callers t
    × (t.caller 0 ≡ Caller.closed)
    × (t.caller 1 ≡ Caller.closed)
    × (open_count t ≡ pos 0)
open_close-drift_example = open_close-drift two_callers 0 1 (λ e. omega (arith, e)) refl refl
