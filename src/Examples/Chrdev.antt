-- ===== src/Examples/Chrdev.antt =====
-- The theorems on the character drivers, at a first load of each.
use driver_module_test.Prelude.{
  ℕ, ℤ, negsuc, ◌<◌, ◌^◌, ◌+◌, ◌*◌, pos, ◌≡◌, refl, arith, inl, inr, is_zero, if◌then◌else◌, ◌&&◌,
  ◌==◌,
}
use driver_module_test.Kernel.{Kernel, St, final}
use driver_module_test.Kernel.After.{After}
use driver_module_test.Kernel.Held.{Resource, held, overdrawn}
use driver_module_test.Chrdev.{Globals, device_minor_num}
use driver_module_test.Chrdev.Steps.{bit, NoBuffer, NumbersAgree}
use driver_module_test.Kernel.Moments.{IsOrdered, NeedsClass}
use driver_module_test.Chrdev.Lives.{
  life, char_driver, irq_regist, Leftover, life-Leftover, life-IsOrdered,
}
use driver_module_test.Chrdev.CharDriver.Transfer.{IsLoaded, hello_write, hello_write-overrun}
use driver_module_test.Chrdev.DCdevNum
use driver_module_test.Chrdev.IrqRegist.Interrupts.{IsFreed, frees, irq_life-IsFreed}
use driver_module_test.Chrdev.Numbering.{Numbered, load, load-Numbered}
use driver_module_test.Chrdev.Numbers.{
  d_cdev_num, number_life, first_number, is_without, number_driver-overdrawn,
}
use driver_module_test.Examples.{obliging, at_start}

-- No major is given, so that the kernel picks the numbers.
abbrev pub unset : St Globals
unset = at_start (record {
  numdev_major = pos 0;
  numdev_minor = pos 0;
  my_device_class = 0;
  my_devices = 0;
  data_of = λ _. 0;
  size_of = λ _. 0;
})

pub agrees : NumbersAgree obliging (pos 0)
agrees i = refl

life-Leftover_example :
    After
      (λ n t. Leftover obliging irq_regist unset n t (Resource.gpio 101))
      NoBuffer
      (life obliging irq_regist unset)
life-Leftover_example = life-Leftover obliging unset agrees irq_regist (Resource.gpio 101)

-- A kernel like `obliging`, which makes no node for the class at 0.
abbrev pub no_class_at_0 : Kernel
no_class_at_0 = record obliging { is_err = λ a. a == 0; device_create = λ t c d. c }

pub needs_class : NeedsClass no_class_at_0
needs_class t c d e = e

life-IsOrdered_example :
    After
      (λ _ t. IsOrdered 4096 1 9000 262144001 t)
      (IsOrdered 4096 1 9000 262144001)
      (life no_class_at_0 char_driver unset)
life-IsOrdered_example =
    life-IsOrdered no_class_at_0 needs_class 4096 1 9000 262144001 unset char_driver
      (inl refl, inl refl) refl refl

abbrev dynamic : St DCdevNum.Globals
dynamic = at_start (record { numdev_major = pos 0; numdev_minor = pos 0 })

-- A kernel that has no numbers left.
abbrev refusing : Kernel
refusing = record obliging { alloc_chrdev_region = λ t minor n. negsuc 15 }

number_driver-overdrawn_example :
    (let t = number_life refusing d_cdev_num dynamic in
      (held (Resource.region 262144000 2) t.history ≡ 0)
      × (overdrawn (Resource.region 262144000 2) t.history
          ≡ overdrawn (Resource.region 262144000 2) dynamic.history
            + bit (
                is_without refusing d_cdev_num dynamic
                && (262144000 == first_number refusing d_cdev_num dynamic
                    && 2 == device_minor_num))))
number_driver-overdrawn_example =
    number_driver-overdrawn refusing d_cdev_num dynamic 262144000 2 (λ e. refl) refl

abbrev with_buffers : St Globals
with_buffers = at_start (record {
  numdev_major = pos 250;
  numdev_minor = pos 0;
  my_device_class = 9000;
  my_devices = 4096;
  data_of = λ i. 8192 + 4096 * i;
  size_of = λ i. 1024;
})

with_buffers-IsLoaded : IsLoaded with_buffers.globals
with_buffers-IsLoaded = record { array = λ e. omega arith; buffer = λ e. omega arith }

hello_write-overrun_example :
    (final (hello_write 300 1030 with_buffers)).memory 9220 ≡ with_buffers.user 1328
hello_write-overrun_example =
    hello_write-overrun obliging 300 1030 with_buffers (λ e. omega arith) with_buffers-IsLoaded
      (inl (omega arith)) 9220 (inr (omega arith))

irq_life-IsFreed_example :
    After
      (λ m t. IsFreed obliging 9 12288 (0 + (if is_zero m then frees obliging 9 12288 t else 0)) t)
      NoBuffer
      (life obliging irq_regist unset)
irq_life-IsFreed_example = irq_life-IsFreed obliging 9 12288 0 unset (refl, refl)

-- Its numbers follow one another, and the module is given a minor number.
obliging-IsLinear :
    (major : ℤ) (i : ℕ)
    → i < 2 ^ 20
    → obliging.mkdev major (pos i) ≡ obliging.mkdev major (pos 0) + i
obliging-IsLinear (pos a) i lt = omega arith
obliging-IsLinear (negsuc a) i lt = omega arith

-- A kernel that picks a number with that minor.
abbrev from_minor : Kernel
from_minor = record obliging { allocated_dev = λ t. 262144000 + 1 }

abbrev second_minor : St Globals
second_minor = record unset { globals = record unset.globals { numdev_minor = pos 1 } }

load-Numbered_example :
    After (Numbered from_minor second_minor 1) NoBuffer (load from_minor char_driver second_minor)
load-Numbered_example =
    load-Numbered from_minor second_minor (λ i. refl) char_driver 1 refl (omega arith)
      obliging-IsLinear
