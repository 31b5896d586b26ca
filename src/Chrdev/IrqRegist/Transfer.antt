-- ===== src/Chrdev/IrqRegist/Transfer.antt =====
-- `read` and `write` of moduleIrqRegist, which are those of moduleCharDriver word for word.
use driver_module_test.Prelude.{ℕ, ℤ}
use driver_module_test.Kernel.{M}
use driver_module_test.Chrdev.{Globals}
use driver_module_test.Chrdev.CharDriver.Transfer as CharDriver

pub hello_read : (user size : ℕ) → M Globals ℤ
hello_read = CharDriver.hello_read

pub hello_write : (user size : ℕ) → M Globals ℤ
hello_write = CharDriver.hello_write
