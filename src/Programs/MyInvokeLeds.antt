-- ===== src/Programs/MyInvokeLeds.antt =====
-- moduleAppTest/myInvoke_leds.c: three rounds of a write and a read on /dev/myDCdev0, against
-- moduleCharDriver.
pub mod Exchange
pub mod Session
use driver_module_test.Prelude.{ℕ, ◌+◌, ℤ, is_neg, update, if◌then◌else◌}
use driver_module_test.DeviceFile.{Syscalls}
use driver_module_test.Kernel.{St, ok, M, pure, ◌>>=◌, ◌>>◌}
use driver_module_test.Kernel.Loops.{for_range}

abbrev pub buff_size : ℕ
buff_size = 128

-- The buffers are on the program's stack, at these addresses.
module _ {G : Type 0} (write_buff read_buff : ℕ) where
  -- write_buff[i] = i; read_buff[i] = 0
  abbrev pub fill_byte : ℕ → M G (Unit {0})
  fill_byte i s =
      ok tt (record s { user = update (update s.user (write_buff + i) i) (read_buff + i) 0 })

  unfoldable pub fill_buffers : M G (Unit {0})
  fill_buffers = for_range buff_size 0 fill_byte

  module _ (sys : Syscalls G) where
    -- One command, one write and one read.
    unfoldable pub exchange : (fd : ℤ) (cmd : ℕ) → M G ℤ
    exchange fd cmd = do
      sys.ioctl fd cmd 1
      sys.write fd write_buff buff_size
      sys.read fd read_buff buff_size

    -- What follows the `open`.
    unfoldable pub main_on : (fd : ℤ) → M G (Unit {0})
    main_on fd =
        if is_neg fd
        then pure tt
        else (do exchange fd 1; exchange fd 0; exchange fd 1; sys.close fd; pure tt)

    unfoldable pub main : M G (Unit {0})
    main = do fill_buffers; fd ← sys.open_file; main_on fd
