-- ===== src/HelloModule/Wait.antt =====
-- Readers and writers of moduleUbuntuTest, interleaved at the accesses to `enable_read` and to the
-- wait queue, and at the copies. A reader tests `enable_read` in wait_event_interruptible_timeout,
-- and again whenever the queue is woken; while it is not set the reader sleeps. A signal and the
-- timeout end the wait. Each copy, each loop over the bytes, and the reads of the logged bytes at the
-- end are one step; a read through NULL stops the caller there.
pub mod Alone
pub mod Invariant
pub mod Lost
pub mod Overtaken
pub mod Progress
use driver_module_test.Prelude.{ℕ, ℤ, ◌≡◌, ◌≢◌, ◌<◌, ◌≤◌, update}
use driver_module_test.Kernel.{Event, Kernel, St, ok, record_call}
use driver_module_test.HelloModule.{
  MyDev, dev_buff_max, log_user, log_data, bump_byte, copy_from_user, copy_to_user,
}
use driver_module_test.Kernel.Loops.{for_range}

-- Where a reader is: before the test of the size, before a test of `enable_read`, on the queue, behind
-- the wait, behind `enable_read = 0`, behind the loop over the bytes, behind the copy, or returned.
pub data Reader : Type 0 where
  starting waiting asleep past cleared bumped copied finished : Reader

-- Where a writer is: before the test of the size, refused by it, behind the copy, behind the wake-up,
-- behind `enable_read = 1`, or returned from there.
pub data Writer : Type 0 where
  starting refused filled woke logging finished : Writer

pub record System : Type 0 where
  pub dev : St MyDev
  pub reader : ℕ → Reader
  pub writer : ℕ → Writer

abbrev pub enabled : System → ℕ
enabled s = s.dev.globals.enable_read

-- wake_up_interruptible
abbrev pub woken : Reader → Reader
woken Reader.asleep = Reader.waiting
woken r = r

abbrev pub moves : System → ℕ → Reader → System
moves s i r = record s { reader = update s.reader i r }

abbrev pub goes_on : System → ℕ → Writer → System
goes_on s j w = record s { writer = update s.writer j w }

pub record Request : Type 0 where
  pub buf : ℕ
  pub size : ℕ

-- What each reader and each writer asks for.
pub record Requests : Type 0 where
  pub read : ℕ → Request
  pub write : ℕ → Request

module _ (k : Kernel) (asked : Requests) where
  pub data Step (s : System) : System → Type 0 where
    turn_away :
        (i : ℕ)
        → s.reader i ≡ Reader.starting
        → dev_buff_max < (asked.read i).size
        → Step s (moves s i Reader.finished)
    enter :
        (i : ℕ)
        → s.reader i ≡ Reader.starting
        → (asked.read i).size ≤ dev_buff_max
        → Step s (moves s i Reader.waiting)
    see_set : (i : ℕ) → s.reader i ≡ Reader.waiting → enabled s ≢ 0 → Step s (moves s i Reader.past)
    see_clear :
        (i : ℕ) → s.reader i ≡ Reader.waiting → enabled s ≡ 0 → Step s (moves s i Reader.asleep)
    give_up : (i : ℕ) → s.reader i ≡ Reader.asleep → Step s (moves s i Reader.past)
    reset :
        (i : ℕ)
        → s.reader i ≡ Reader.past
        → Step s (record (moves s i Reader.cleared) {
          dev = record s.dev { globals = record s.dev.globals { enable_read = 0 } };
        })
    bump :
        (i : ℕ) {t : St MyDev}
        → s.reader i ≡ Reader.cleared
        → for_range (asked.read i).size 0 (bump_byte k) s.dev ≡ ok tt t
        → Step s (record (moves s i Reader.bumped) { dev = t })
    copy_out :
        (i : ℕ) {n : ℕ} {t : St MyDev}
        → s.reader i ≡ Reader.bumped
        → copy_to_user k (asked.read i).buf s.dev.globals.p_output_data (asked.read i).size s.dev
          ≡ ok n t
        → Step s (record (moves s i Reader.copied) { dev = t })
    log_out :
        (i : ℕ) {n : ℤ} {t : St MyDev}
        → s.reader i ≡ Reader.copied
        → log_user (asked.read i).buf (asked.read i).size s.dev ≡ ok n t
        → Step s (record (moves s i Reader.finished) { dev = t })
    refuse :
        (j : ℕ)
        → s.writer j ≡ Writer.starting
        → dev_buff_max < (asked.write j).size
        → Step s (goes_on s j Writer.refused)
    fill :
        (j : ℕ) {n : ℕ} {t : St MyDev}
        → s.writer j ≡ Writer.starting
        → (asked.write j).size ≤ dev_buff_max
        → copy_from_user k s.dev.globals.p_input_data (asked.write j).buf (asked.write j).size s.dev
          ≡ ok n t
        → Step s (record (goes_on s j Writer.filled) { dev = t })
    wake :
        (j : ℕ)
        → s.writer j ≡ Writer.filled
        → Step s (record (goes_on s j Writer.woke) {
          dev = record_call Event.wake_up_interruptible s.dev;
          reader = λ i. woken (s.reader i);
        })
    enable :
        (j : ℕ)
        → s.writer j ≡ Writer.woke
        → Step s (record (goes_on s j Writer.logging) {
          dev = record s.dev { globals = record s.dev.globals { enable_read = 1 } };
        })
    log_in :
        (j : ℕ) {n : ℤ} {t : St MyDev}
        → s.writer j ≡ Writer.logging
        → log_data (asked.write j).buf (asked.write j).size s.dev ≡ ok n t
        → Step s (record (goes_on s j Writer.finished) { dev = t })

  pub data Reach (s : System) : System → Type 0 where
    here : Reach s s
    later : {t u : System} → Reach s t → Step t u → Reach s u
