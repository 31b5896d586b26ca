-- ===== src/HelloModule/Transfer.antt =====
-- What a `read` of moduleUbuntuTest hands over.
pub mod NullBuffer
pub mod RoundTrip
use mathlib.Core.Path.{subst}
use driver_module_test.Prelude.{
  false, ltb, ◌∷◌, ℕ, zero, suc, ◌+◌, ◌%◌, ◌≤◌, ◌<◌, ◌⊎◌, pos, negsuc, ◌≡◌, ◌≢◌, refl, sym, ap, ◌∙◌,
  arith, fun_ext, update, if◌then◌else◌,
}
use driver_module_test.Prelude.Blit.{blit, blit-start}
use driver_module_test.Kernel.{
  Event, Kernel, St, ok, M, pure, and_then, get, put, deref, ◌>>=◌, ◌>>◌,
}
use driver_module_test.Kernel.After.{After}
use driver_module_test.Kernel.Calls.{void}
use driver_module_test.Kernel.Loops.{for_range}
use driver_module_test.HelloModule.{
  deref_bytes, log_user, log_data, MyDev, dev_buff_max, bump_byte, hello_write, hello_read,
  hello_read_on, copy_to_user, copy_from_user,
}

-- The two buffers are there and do not overlap.
abbrev pub Apart : (inp out : ℕ) → Type 0
Apart inp out = (inp ≢ 0) × (out ≢ 0) × ((inp + dev_buff_max ≤ out) ⊎ (out + dev_buff_max ≤ inp))

abbrev pub bumped : (ℕ → ℕ) → ℕ → ℕ
bumped memory a = (memory a + 2) % 256

bump-suc :
    (memory : ℕ → ℕ) (inp out i n a : ℕ)
    → Apart inp out
    → i + suc n ≤ dev_buff_max
    → let later = update memory (out + i) (bumped memory (inp + i)) in
      blit later (bumped later) (out + suc i) (inp + suc i) n a
      ≡ blit memory (bumped memory) (out + i) (inp + i) (suc n) a
bump-suc memory inp out i n a apart le = ground arith

bump-zero :
    (memory src : ℕ → ℕ) (inp out i a : ℕ) → blit memory src (out + i) (inp + i) 0 a ≡ memory a
bump-zero memory src inp out i a = ground arith

module _ (k : Kernel) where
  bump_byte_lem :
      (i : ℕ) (s : St MyDev)
      → Apart s.globals.p_input_data s.globals.p_output_data
      → bump_byte k i s
        ≡ ok tt (record s {
          memory =
              update s.memory
                (s.globals.p_output_data + i)
                (bumped s.memory (s.globals.p_input_data + i));
        })
  unfolding bump_byte
  bump_byte_lem i s (inp, out, _) = ground arith

  pub for_range-bump_byte :
      (n i : ℕ) (s : St MyDev)
      → Apart s.globals.p_input_data s.globals.p_output_data
      → i + n ≤ dev_buff_max
      → for_range n i (bump_byte k) s
        ≡ ok tt (record s {
          memory =
              blit s.memory
                (bumped s.memory)
                (s.globals.p_output_data + i)
                (s.globals.p_input_data + i)
                n;
        })
  for_range-bump_byte zero i s apart le =
      ap (λ f. ok tt (record s { memory = f }))
        (sym (
          fun_ext (
            bump-zero s.memory (bumped s.memory) s.globals.p_input_data s.globals.p_output_data i)))
  for_range-bump_byte (suc n) i s apart le =
      ap (λ r. and_then r (λ _. for_range n (suc i) (bump_byte k))) (bump_byte_lem i s apart)
      ∙ for_range-bump_byte n (suc i)
          (record s {
            memory =
                update s.memory (s.globals.p_output_data + i)
                  (bumped s.memory (s.globals.p_input_data + i));
          })
          apart (ground arith)
      ∙ ap (λ f. ok tt (record s { memory = f }))
          (fun_ext
            (λ a. bump-suc s.memory s.globals.p_input_data s.globals.p_output_data i n a apart le))

module _ (k : Kernel) where
  -- The caller's memory is accessible, so that each copy is complete.
  pub record CopiesAll : Type 0 where
    pub to_user :
        (t : ℕ) (user memory : ℕ → ℕ) (to from n a : ℕ)
        → (k.copy_to_user t user memory to from n).1 a ≡ blit user memory to from n a
    pub from_user :
        (t : ℕ) (memory user : ℕ → ℕ) (to from n a : ℕ)
        → (k.copy_from_user t memory user to from n).1 a ≡ blit memory user to from n a

  -- The structure is there, its buffers are there and do not overlap, and no more than a buffer is asked for.
  pub record Fits (g : MyDev) (size : ℕ) : Type 0 where
    pub device : g.my_dev ≢ 0
    pub apart : Apart g.p_input_data g.p_output_data
    pub size_le : size ≤ dev_buff_max

  -- The bytes behind the output buffer after a `read` of `size` bytes.
  abbrev bumped_memory : (size : ℕ) → St MyDev → ℕ → ℕ
  bumped_memory size s =
      blit s.memory (bumped s.memory) s.globals.p_output_data s.globals.p_input_data size

  -- The caller's memory after it.
  abbrev pub read_user : (user size : ℕ) → St MyDev → ℕ → ℕ
  read_user user size s = blit s.user (bumped_memory size s) user s.globals.p_output_data size

  abbrev pub after_read : (user size : ℕ) → St MyDev → St MyDev
  after_read user size s = record s {
    globals = record s.globals { enable_read = 0 };
    memory = bumped_memory size s;
    user = read_user user size s;
  }

  pub deref-there : (p : ℕ) (s : St MyDev) → p ≢ 0 → deref p s ≡ ok tt s
  deref-there p s ne = ground arith

  deref_bytes-there : (p n : ℕ) (s : St MyDev) → p ≢ 0 → deref_bytes p n s ≡ ok tt s
  deref_bytes-there p n s ne = ground arith

  -- A copy from a buffer that is there.
  pub copy_to_user-there :
      (user from size : ℕ) (s : St MyDev)
      → from ≢ 0
      → copy_to_user k user from size s
        ≡ ok
            (k.copy_to_user s.tick s.user s.memory user from size).0
            (record s { user = (k.copy_to_user s.tick s.user s.memory user from size).1 })
  copy_to_user-there user from size s ne =
      ap
        (λ r. and_then r (λ _ t.
          let x = k.copy_to_user t.tick t.user t.memory user from size in
          ok x.0 (record t { user = x.1 })))
        (deref_bytes-there from size s ne)

  pub copy_from_user-there :
      (to user size : ℕ) (s : St MyDev)
      → to ≢ 0
      → copy_from_user k to user size s
        ≡ ok
            (k.copy_from_user s.tick s.memory s.user to user size).0
            (record s { memory = (k.copy_from_user s.tick s.memory s.user to user size).1 })
  copy_from_user-there to user size s ne =
      ap
        (λ r. and_then r (λ _ t.
          let x = k.copy_from_user t.tick t.memory t.user to user size in
          ok x.0 (record t { memory = x.1 })))
        (deref_bytes-there to size s ne)

  -- A copy leaves the variables.
  pub copy_to_user-globals :
      (user from size n : ℕ) (s t : St MyDev)
      → copy_to_user k user from size s ≡ ok n t
      → s.globals ≡ t.globals
  copy_to_user-globals user from size n s t e = ground (arith, e)

  pub copy_from_user-globals :
      (to user size n : ℕ) (s t : St MyDev)
      → copy_from_user k to user size s ≡ ok n t
      → s.globals ≡ t.globals
  copy_from_user-globals to user size n s t e = ground (arith, e)

  pub log_user-there :
      (user size : ℕ) (s : St MyDev) → user ≢ 0 → log_user user size s ≡ ok (pos 0) s
  log_user-there user size s ne = ground arith

  pub log_data-there :
      (user size : ℕ) (s : St MyDev)
      → user ≢ 0
      → s.globals.p_input_data ≢ 0
      → log_data user size s ≡ ok (pos 0) s
  log_data-there user size s ne there = ground arith

  copied_out :
      (copies : CopiesAll) (user size : ℕ) (s : St MyDev) (m : ℕ → ℕ)
      → user ≢ 0
      → m ≡ bumped_memory size s
      → s.globals.p_output_data ≢ 0
      → (let t = record s { globals = record s.globals { enable_read = 0 }; memory = m } in
          and_then (copy_to_user k user s.globals.p_output_data size t) (λ _. log_user user size))
        ≡ ok (pos 0) (after_read user size s)
  copied_out copies user size s m ne e there =
      ap (λ r. and_then r (λ _. log_user user size))
        (copy_to_user-there user s.globals.p_output_data size
          (record s { globals = record s.globals { enable_read = 0 }; memory = m }) there)
      ∙ log_user-there user size _ ne
      ∙ ap
          (λ n. ok (pos 0) (record s {
            globals = record s.globals { enable_read = 0 };
            memory = n;
            user = (k.copy_to_user s.tick s.user n user s.globals.p_output_data size).1;
          }))
          e
      ∙ ap
          (λ u. ok (pos 0) (record s {
            globals = record s.globals { enable_read = 0 };
            memory = bumped_memory size s;
            user = u;
          }))
          (fun_ext
            (copies.to_user s.tick s.user (bumped_memory size s) user s.globals.p_output_data size))

  pub hello_read_on-blit :
      (copies : CopiesAll) (user size : ℕ) (s : St MyDev)
      → user ≢ 0
      → Fits s.globals size
      → hello_read_on k user size s ≡ ok (pos 0) (after_read user size s)
  unfolding hello_read_on
  hello_read_on-blit copies user size s ne fit =
      let t = record s { globals = record s.globals { enable_read = 0 } } in
      ap
        (λ r. and_then r (λ _. do
          put (record s.globals { enable_read = 0 })
          for_range size 0 (bump_byte k)
          copy_to_user k user s.globals.p_output_data size
          log_user user size))
        (deref-there s.globals.my_dev s fit.device)
      ∙ ap
          (λ r.
            and_then r
              (λ _. do copy_to_user k user s.globals.p_output_data size; log_user user size))
          (for_range-bump_byte k size 0 t fit.apart (ground (arith, fit.size_le)))
      ∙ copied_out copies user size s _ ne
          (fun_ext (
            blit-start s.memory (bumped s.memory) s.globals.p_output_data s.globals.p_input_data
              size))
          fit.apart.1

  pub within : (size : ℕ) → size ≤ dev_buff_max → ltb dev_buff_max size ≡ false
  within size le = ground arith

  -- Let the structure of moduleUbuntuTest be there. Whatever other callers do during the wait of
  -- hello_read, if they leave it in place, with buffers that are there and do not overlap, at
  -- most a buffer is asked for, and the caller's memory is accessible and its buffer not NULL:
  -- the call returns 0, clears enable_read, changes only the first `size` bytes of the output
  -- buffer, to those of the input buffer plus 2 modulo 256, and copies just these to the caller.
  pub hello_read-bumped :
      (copies : CopiesAll) (others : M MyDev (Unit {0})) (user size : ℕ) (s t : St MyDev)
      → user ≢ 0
      → s.globals.my_dev ≢ 0
      → others s ≡ ok tt t
      → Fits t.globals size
      → hello_read k others user size s ≡ ok (pos 0) (after_read user size t)
  unfolding hello_read
  hello_read-bumped copies others user size s t ne there e fit =
      ap
        (λ b.
          (if b
              then pure (negsuc 0)
              else (do g ← get; deref g.my_dev; others; hello_read_on k user size))
            s)
        (within size fit.size_le)
      ∙ ap (λ r. and_then r (λ _. do others; hello_read_on k user size))
          (deref-there s.globals.my_dev s there)
      ∙ ap (λ r. and_then r (λ _. hello_read_on k user size)) e
      ∙ hello_read_on-blit copies user size t ne fit
