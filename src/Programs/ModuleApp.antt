-- ===== src/Programs/ModuleApp.antt =====
-- moduleUbuntuTest/moduleApp/moduleAppTest.c: five rounds of a write on /dev/HELLO_MODULE0. The
-- part with the `read` is switched off in the source.
pub mod Round
pub mod Rounds
pub mod Session
use driver_module_test.Prelude.{ℕ, zero, suc, ◌+◌, ℤ, pos, negsuc, is_neg, update, if◌then◌else◌}
use driver_module_test.DeviceFile.{Syscalls}
use driver_module_test.Kernel.{St, ok, M, pure, ◌>>=◌, ◌>>◌}
use driver_module_test.Kernel.Loops.{for_range}

-- sizeof(strWriteBuff)
abbrev pub write_size : ℕ
write_size = 10

abbrev main_count : ℕ
main_count = 5

-- The buffer is on the program's stack, at this address.
module _ {G : Type 0} (write_buff : ℕ) where
  -- strWriteBuff[i] = i
  abbrev pub fill_byte : ℕ → M G (Unit {0})
  fill_byte i s = ok tt (record s { user = update s.user (write_buff + i) i })

  unfoldable pub fill_buffer : M G (Unit {0})
  fill_buffer = for_range write_size 0 fill_byte

  module _ (sys : Syscalls G) where
    -- What follows the `open` in one round, with the later rounds.
    unfoldable pub round_on : (next : M G ℤ) (fd : ℤ) → M G ℤ
    round_on next fd = if is_neg fd then pure (negsuc 0) else (do
      fill_buffer
      sys.write fd write_buff write_size
      sys.ioctl fd 1 2
      sys.close fd
      next)

    abbrev pub rounds : ℕ → M G ℤ
    rounds zero = pure (pos 0)
    rounds (suc n) = do fd ← sys.open_file; round_on (rounds n) fd

    unfoldable pub main : M G ℤ
    main = rounds main_count
