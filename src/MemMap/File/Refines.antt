-- ===== src/MemMap/File/Refines.antt =====
-- The handlers of mem_map against the flat file of MemMap/File.
use native.Mathlib.Nat.{mod-lt}
use native.Mathlib.Decide.{dec_lt}
use driver_module_test.Prelude.{
  ℕ, ◌+◌, ◌%◌, ◌≡◌, Bool-cases, ◌==◌, inl, inr, ℤ, pos, negsuc, List, [], ◌∷◌, refl, ap, ◌∙◌,
  fun_ext, arith,
}
use driver_module_test.Kernel.{Kernel, St}
use driver_module_test.Kernel.After.{After, After-all, After-and, After-mono, After-bind}
use driver_module_test.Kernel.Held.{Resource, held}
use driver_module_test.MemMap.{Globals, Serves, phys_mod}
use driver_module_test.MemMap.Read.{mem_map_read}
use driver_module_test.MemMap.Read.Content.{Reads, mem_map_read-Reads}
use driver_module_test.MemMap.Read.Balance.{mem_map_read-held}
use driver_module_test.MemMap.Write.{mem_map_write}
use driver_module_test.MemMap.Write.Content.{Writes, mem_map_write-Writes}
use driver_module_test.MemMap.Write.Balance.{mem_map_write-held}
use driver_module_test.MemMap.Seek.{
  mem_map_lseek, Seeks, mem_map_lseek-Seeks, mem_map_lseek_rest, word,
}
use driver_module_test.MemMap.File.{Op, Permits, Runs, perform, run_ops, view}

module _ (k : Kernel) (laws : Serves k) where
  read-Permits :
      (buf count : ℕ) (s t : St Globals) (n : ℤ)
      → ((a : ℕ) → Reads k laws buf count a s n t)
      → Permits (phys_mod k) (view s) (Op.read buf count) n (view t)
  read-Permits buf count s t (pos n) h =
      let (all, moved, same, _) = h 0 in
      Permits.delivered buf count n all moved same (fun_ext (λ a. (h a).3))
  read-Permits buf count s t (negsuc e) h =
      let (code, still, same) = h 0 in Permits.not_read buf count e code still same

  write-Permits :
      (buf count : ℕ) (s t : St Globals) (n : ℤ)
      → ((a : ℕ) → Writes k laws a buf count s n t)
      → Permits (phys_mod k) (view s) (Op.write buf count) n (view t)
  write-Permits buf count s t (pos n) h =
      let (le, some, moved, same, _) = h 0 in
      Permits.stored buf count n le some moved same (λ a. (h a).4)
  write-Permits buf count s t (negsuc e) h = elim (Bool-cases (e == 26)) [
    | inl far ↦
        let kept : t.globals.phys ≡ s.globals.phys = fun_ext (λ a. ground (arith, h a, far)) in
        Permits.too_far buf count e (ground (arith, far)) (cc (kept, (h 0).1, (h 0).2))
    | inr other ↦
        Permits.not_written buf count e (ground (arith, h 0, other)) (h 0).1 (h 0).2
          (λ a. ground (arith, h a, other))
  ]

  seek-Permits :
      (offset orig : ℕ) (s t : St Globals) (n : ℤ)
      → Seeks (offset % word) orig s n t
      → t.user ≡ s.user
      → t.globals.phys ≡ s.globals.phys
      → Permits (phys_mod k) (view s) (Op.seek offset orig) n (view t)
  seek-Permits offset orig s t n (inl (there, at, low, one)) u p =
      Permits.moved offset orig there low one (cc (at, u, p))
  seek-Permits offset orig s t n (inr (still, why)) u p =
      Permits.not_moved offset orig why (cc (still, u, p))

  -- Each resource is held as often as before.
  abbrev pub Balanced : St Globals → St Globals → Type 0
  Balanced s t = (r : Resource) → held r t.history ≡ held r s.history

  abbrev pub Performs : Op → St Globals → ℤ → St Globals → Type 0
  Performs o s n t = Permits (phys_mod k) (view s) o n (view t) × Balanced s t

  read-Performs :
      (buf count : ℕ) (s : St Globals)
      → After (Performs (Op.read buf count) s) (λ _. ⊥) (mem_map_read k buf count s)
  read-Performs buf count s =
      let run = mem_map_read k buf count s in
      let kept : After (λ _ t. Balanced s t) (λ _. ⊥) run =
        After-all (λ r _ t. held r t.history ≡ held r s.history) (λ _. ⊥) run Resource.misc
          (λ r. mem_map_read-held k buf count s r laws) in
      elim (dec_lt (phys_mod k) (s.globals.ppos + count)) [
        | yes past ↦
            After-mono _ _ (λ _. ⊥) run kept (λ n t b. (Permits.past_end_read buf count past, b))
        | no fits ↦
            After-and _ (λ _ t. Balanced s t) (λ _. ⊥) run
              (After-mono _ _ (λ _. ⊥) run
                (After-all (λ a n t. Reads k laws buf count a s n t) (λ _. ⊥) run 0
                  (λ a. mem_map_read-Reads k laws buf count a s (omega arith)))
                (λ n t h. read-Permits buf count s t n h))
              kept
      ]

  write-Performs :
      (buf count : ℕ) (s : St Globals)
      → After (Performs (Op.write buf count) s) (λ _. ⊥) (mem_map_write k buf count s)
  write-Performs buf count s =
      let run = mem_map_write k buf count s in
      let kept : After (λ _ t. Balanced s t) (λ _. ⊥) run =
        After-all (λ r _ t. held r t.history ≡ held r s.history) (λ _. ⊥) run Resource.misc
          (λ r. mem_map_write-held k laws buf count s r) in
      elim (dec_lt (phys_mod k) (s.globals.ppos + count)) [
        | yes past ↦
            After-mono _ _ (λ _. ⊥) run kept (λ n t b. (Permits.past_end_write buf count past, b))
        | no fits ↦
            After-and _ (λ _ t. Balanced s t) (λ _. ⊥) run
              (After-mono _ _ (λ _. ⊥) run
                (After-all (λ a n t. Writes k laws a buf count s n t) (λ _. ⊥) run 0
                  (λ a. mem_map_write-Writes k laws a buf count s (omega arith)))
                (λ n t h. write-Permits buf count s t n h))
              kept
      ]

  seek-Performs :
      (offset orig : ℕ) (s : St Globals)
      → After (Performs (Op.seek offset orig) s) (λ _. ⊥) (mem_map_lseek (offset % word) orig s)
  seek-Performs offset orig s =
      let run = mem_map_lseek (offset % word) orig s in
      After-mono _ _ (λ _. ⊥) run
        (After-and _ _ (λ _. ⊥) run
          (mem_map_lseek-Seeks (offset % word) orig s (mod-lt offset (omega arith)))
          (mem_map_lseek_rest (offset % word) orig s))
        (λ n t (h, (u, p, e)). (seek-Permits offset orig s t n h u p, λ r. ap (held r) e))

  perform-Performs : (o : Op) (s : St Globals) → After (Performs o s) (λ _. ⊥) (perform k o s)
  perform-Performs (Op.read buf count) s = read-Performs buf count s
  perform-Performs (Op.write buf count) s = write-Performs buf count s
  perform-Performs (Op.seek offset orig) s = seek-Performs offset orig s

  -- On a kernel that serves mappings and copies, any list of calls of mem_map_read, mem_map_write
  -- and mem_map_lseek on an open device, run one after the other, ends without a NULL access and
  -- with enough fuel. Its results and its effects on position, physical memory and caller's
  -- memory are a run that the abstract flat file with a position permits, and each resource is
  -- held as often as before. The file promises nothing of a transfer that passes the last
  -- physical address, nor of the caller's memory after a failed read; and of the bytes that a
  -- write was asked for and did not store, each may have been zeroed.
  pub run_ops-Runs :
      (ops : List Op) (s : St Globals)
      → After
          (λ ns t. Runs (phys_mod k) ops (view s) ns (view t) × Balanced s t)
          (λ _. ⊥)
          (run_ops k ops s)
  run_ops-Runs [] s = (Runs.done, λ r. refl)
  run_ops-Runs (o ∷ ops) s =
      After-bind _ _ (λ _. ⊥) (perform k o s) _ (perform-Performs o s)
        (λ n t (h, b).
          After-bind _ _ (λ _. ⊥) (run_ops k ops t) _ (run_ops-Runs ops t)
            (λ ns u (hs, bs). (Runs.one_more h hs, λ r. bs r ∙ b r)))
