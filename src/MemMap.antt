-- ===== src/MemMap.antt =====
-- mem_map/mem_map.c: a character device over physical memory. Here are its variables, the pieces
-- that `read` and `write` share, and what they rely on; the handlers are in the children.
pub mod Page
pub mod Read
pub mod Write
pub mod Mmap
pub mod Seek
pub mod Init
pub mod File
use driver_module_test.Prelude.{
  ℕ, ◌+◌, ◌-◌, ◌*◌, ◌%◌, ◌^◌, ◌≤◌, ◌<◌, ℤ, pos, ◌≡◌, ◌≢◌, Bool, true, ◌==◌, leb, if◌then◌else◌,
}
use driver_module_test.Prelude.Blit.{blit, padded}
use driver_module_test.Kernel.{Event, Kernel, St, ok, M, pure, get, put, record_call, ◌>>=◌, ◌>>◌}
use driver_module_test.Kernel.Calls.{void}

-- The position that the handlers get by reference, physical memory by bytes, and the physical
-- address behind each virtual address that is mapped at present.
pub record Globals : Type 0 where
  pub ppos : ℕ
  pub phys : ℕ → ℕ
  pub page_map : ℕ → ℕ

abbrev mem_map_open : M Globals ℤ
mem_map_open = pure (pos 0)

-- Any page is allowed.
abbrev pub page_is_allowed : ℕ → Bool
page_is_allowed pfn = true

module _ (k : Kernel) where
  abbrev pub page_size : ℕ
  page_size = 2 ^ k.page_shift

  abbrev pub phys_mod : ℕ
  phys_mod = 2 ^ k.phys_bits

  -- The bytes from `start` to the end of its page, `size` at most. (`x & (PAGE_SIZE - 1)` is
  -- `x % PAGE_SIZE`.)
  unfoldable pub size_inside_page : (start size : ℕ) → ℕ
  size_inside_page start size =
      let sz = page_size - start % page_size in if leb sz size then sz else size

  -- A mapping of the page of `phys`, moved on to `phys` itself; NULL stays NULL.
  unfoldable pub my_xlate_dev_mem_ptr : ℕ → M Globals ℕ
  my_xlate_dev_mem_ptr phys s =
      let start = phys - phys % page_size in
      let vaddr = k.memremap s.tick start in
      let t : St Globals = record s {
        globals = record s.globals { page_map = k.translate s.tick start };
      } in
      ok (if vaddr == 0 then 0 else vaddr + phys % page_size)
        (record_call (Event.memremap start vaddr) t)

  unfoldable pub my_unxlate_dev_mem_ptr : (phys addr : ℕ) → M Globals (Unit {0})
  my_unxlate_dev_mem_ptr phys addr = void (Event.memunmap (addr - addr % page_size))

  -- The copies, as the kernel makes them.
  abbrev pub probe_kernel_read : (to from n : ℕ) → M Globals ℤ
  probe_kernel_read to from n s =
      let r =
        k.probe_kernel_read s.tick s.memory (λ a. s.globals.phys (s.globals.page_map a)) to from
          n in
      ok r.0 (record s { memory = r.1 })

  abbrev pub copy_to_user : (to from n : ℕ) → M Globals ℕ
  copy_to_user to from n s =
      let r = k.copy_to_user s.tick s.user s.memory to from n in ok r.0 (record s { user = r.1 })

  abbrev pub copy_from_user : (to from n : ℕ) → M Globals ℕ
  copy_from_user to from n s =
      let r = k.copy_user_to_page s.tick s.globals.phys s.globals.page_map s.user to from n in
      ok r.0 (record s { globals = record s.globals { phys = r.1 } })

  -- What the handlers rely on: a mapping starts at a page and leads to the bytes of its page, and
  -- a copy_from_user that reports `r` bytes left has made the first `n - r` and zeroed the others.
  pub record Serves : Type 0 where
    pub aligned : (t start : ℕ) → k.memremap t start % page_size ≡ 0
    pub mapped :
        (t start i : ℕ)
        → k.memremap t start ≢ 0
        → i < page_size
        → k.translate t start (k.memremap t start + i) ≡ start + i
    pub probed :
        (t : ℕ) (memory source : ℕ → ℕ) (to from n i : ℕ)
        → (k.probe_kernel_read t memory source to from n).0 ≡ pos 0
        → i < n
        → (k.probe_kernel_read t memory source to from n).1 (to + i) ≡ source (from + i)
    pub to_user :
        (t : ℕ) (user memory : ℕ → ℕ) (to from n a : ℕ)
        → (k.copy_to_user t user memory to from n).0 ≡ 0
        → (k.copy_to_user t user memory to from n).1 a ≡ blit user memory to from n a
    pub rest_le :
        (t : ℕ) (phys page_map user : ℕ → ℕ) (to from n : ℕ)
        → (k.copy_user_to_page t phys page_map user to from n).0 ≤ n
    pub from_user :
        (t : ℕ) (phys page_map user : ℕ → ℕ) (to from n p a : ℕ)
        → ((i : ℕ) → i < n → page_map (to + i) ≡ p + i)
        → (k.copy_user_to_page t phys page_map user to from n).1 a
          ≡ padded phys user p from
              (n - (k.copy_user_to_page t phys page_map user to from n).0)
              (k.copy_user_to_page t phys page_map user to from n).0
              a
