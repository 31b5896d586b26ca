-- ===== src/Platform/Hello.antt =====
-- moduleTest/moduleTest.c: a module that only logs, and calls nothing else.
use driver_module_test.Prelude.{ℤ, pos}
use driver_module_test.Kernel.{M, pure}
use driver_module_test.Platform.{Globals}

unfoldable pub hello_init : M Globals ℤ
hello_init = pure (pos 0)

unfoldable pub hello_exit : M Globals (Unit {0})
hello_exit = pure tt
