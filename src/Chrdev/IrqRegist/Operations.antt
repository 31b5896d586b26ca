-- ===== src/Chrdev/IrqRegist/Operations.antt =====
-- The operations that moduleIrqRegist gives to its two cdevs.
use driver_module_test.Prelude.{some}
use driver_module_test.DeviceFile.{FileOperations}
use driver_module_test.Chrdev.{Globals}
use driver_module_test.Chrdev.IrqRegist.{hello_open, hello_release, hello_unlocked_ioctl}
use driver_module_test.Chrdev.IrqRegist.Transfer.{hello_read, hello_write}

abbrev pub hello_ops : FileOperations Globals
hello_ops = record {
  open_file = hello_open;
  release = hello_release;
  unlocked_ioctl = hello_unlocked_ioctl;
  read = some hello_read;
  write = some hello_write;
}
