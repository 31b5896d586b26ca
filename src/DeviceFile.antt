-- ===== src/DeviceFile.antt =====
-- What a driver offers through its node under /dev, and what a program calls.
use Prim.Native.String.{String}
use driver_module_test.Prelude.{ℕ, ◌≡◌, ◌⊎◌, ℤ, pos, negsuc, Bool, true, false, Option, some}
use driver_module_test.Kernel.{St, Run, ok, M, and_then}

-- `struct file_operations`, as far as the drivers fill it in.
pub record FileOperations (G : Type 0) : Type 0 where
  pub open_file : M G ℤ
  pub release : M G ℤ
  pub unlocked_ioctl : (cmd arg : ℕ) → M G ℤ
  pub read : Option ((user size : ℕ) → M G ℤ)
  pub write : Option ((user size : ℕ) → M G ℤ)

-- `struct miscdevice`, whose node is /dev/<name>; the kernel picks the minor number.
pub record Miscdevice (G : Type 0) : Type 0 where
  pub name : String
  pub fops : FileOperations G

-- The system calls on one node, by which a program reaches its driver.
pub record Syscalls (G : Type 0) : Type 0 where
  pub open_file : M G ℤ
  pub close : (fd : ℤ) → M G ℤ
  pub ioctl : (fd : ℤ) (cmd arg : ℕ) → M G ℤ
  pub read : (fd : ℤ) (buf count : ℕ) → M G ℤ
  pub write : (fd : ℤ) (buf count : ℕ) → M G ℤ

-- The node could be opened.
abbrev pub is_open : {G : Type 0} → Run G ℤ → Bool
is_open (ok (pos fd) t) = true
is_open _ = false

-- The kernel may refuse to open the node, and then nothing happens. Otherwise the program gets a
-- descriptor, for each driver's `open` returns 0, and its calls on it run the driver's functions.
-- To close what was not opened fails.
pub record Dispatches {G : Type 0} (ops : FileOperations G) (sys : Syscalls G) : Type 0 where
  pub opened :
      (s : St G)
      → ((e : ℕ) × (sys.open_file s ≡ ok (negsuc e) s))
        ⊎ ((fd : ℕ) × (sys.open_file s ≡ and_then (ops.open_file s) (λ _ t. ok (pos fd) t)))
  pub closed :
      (fd : ℕ) (s : St G) → sys.close (pos fd) s ≡ and_then (ops.release s) (λ _ t. ok (pos 0) t)
  pub unclosed : (e : ℕ) (s : St G) → sys.close (negsuc e) s ≡ ok (negsuc 0) s
  pub controls :
      (fd cmd arg : ℕ) (s : St G) → sys.ioctl (pos fd) cmd arg s ≡ ops.unlocked_ioctl cmd arg s
  pub reads :
      (f : (user size : ℕ) → M G ℤ)
      → ops.read ≡ some f
      → (fd buf count : ℕ) (s : St G) → sys.read (pos fd) buf count s ≡ f buf count s
  pub writes :
      (f : (user size : ℕ) → M G ℤ)
      → ops.write ≡ some f
      → (fd buf count : ℕ) (s : St G) → sys.write (pos fd) buf count s ≡ f buf count s
