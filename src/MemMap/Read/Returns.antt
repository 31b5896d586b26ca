-- ===== src/MemMap/Read/Returns.antt =====
-- How `mem_map_read` ends, whatever the kernel answers and wherever the position is.
use native.Mathlib.Nat.{mod-eq_of_lt}
use native.Mathlib.Decide.{dec_lt}
use driver_module_test.Prelude.{
  ℕ, zero, suc, ◌+◌, ◌-◌, ◌%◌, ◌<◌, ◌≤◌, ◌≡◌, ◌⊎◌, refl, inl, inr, ℤ, pos, negsuc, true, false,
  Bool-cases, ◌==◌, arith,
}
use driver_module_test.Kernel.{Event, Kernel, St, record_call}
use driver_module_test.Kernel.After.{After, After-bind, After-mono}
use driver_module_test.MemMap.{Globals, page_size, phys_mod, size_inside_page}
use driver_module_test.MemMap.Page.{size_inside_page-bounds}
use driver_module_test.MemMap.Read.{read_piece, read_loop, mem_map_read, failed, finish}

-- Neither the position nor physical memory has changed.
abbrev Stays : St Globals → St Globals → Type 0
Stays s t = (t.globals.ppos ≡ s.globals.ppos) × (t.globals.phys ≡ s.globals.phys)

module _ (k : Kernel) where
  read_piece-Stays :
      (bounce buf p sz : ℕ) (s : St Globals)
      → After (λ _ t. Stays s t) (λ _. ⊥) (read_piece k bounce buf p sz s)
  unfolding read_piece
  read_piece-Stays bounce buf p sz s = ground arith

  -- The loop ends with all bytes or with -EFAULT.
  abbrev Ended : (total : ℕ) → St Globals → ℤ → St Globals → Type 0
  Ended total s (pos n) t =
      (n ≡ total) × (t.globals.ppos ≡ s.globals.ppos + n) × (t.globals.phys ≡ s.globals.phys)
  Ended total s (negsuc e) t = (e ≡ 13) × Stays s t

  Ended-Stays :
      (total : ℕ) (s t u : St Globals) (n : ℤ) → Stays s t → Ended total t n u → Ended total s n u
  Ended-Stays total s t u (pos n) (p, q) h = ground (arith, q)
  Ended-Stays total s t u (negsuc e) (p, q) h = ground (arith, q)

  read_loop-Ended :
      (fuel bounce buf p count read total : ℕ) (s : St Globals)
      → count < fuel
      → read + count ≡ total
      → After (Ended total s) (λ _. ⊥) (read_loop k fuel bounce buf p count read s)
  unfolding read_loop failed finish
  read_loop-Ended zero bounce buf p count read total s lt e = elim lt [ ]
  read_loop-Ended (suc fuel) bounce buf p count read total s lt e = elim (Bool-cases (count == 0)) [
    | inl done ↦ rw done (ground (arith, e, done))
    | inr more ↦ rw more (
        let sz = size_inside_page k p count in
        let bounds = size_inside_page-bounds k p count (ground arith) in
        After-bind (λ _ t. Stays s t) _ (λ _. ⊥) (read_piece k bounce buf p sz s) _
          (read_piece-Stays bounce buf p sz s)
          (elim [
            | true ↦ λ t h.
                After-mono (Ended total t) _ (λ _. ⊥)
                  (read_loop k fuel bounce (buf + sz) ((p + sz) % phys_mod k) (count - sz)
                    (read + sz) t)
                  (read_loop-Ended fuel bounce (buf + sz) ((p + sz) % phys_mod k) (count - sz)
                    (read + sz) total t (omega (arith, bounds)) (omega (arith, bounds, e)))
                  (λ n u. Ended-Stays total s t u n h)
            | false ↦ λ t h. (refl, h)
          ]))
  ]

  -- All bytes, none at a position that is no physical address, or an error.
  abbrev pub Returns : (count : ℕ) → St Globals → ℤ → St Globals → Type 0
  Returns count s (pos n) t =
      ((n ≡ count) ⊎ ((n ≡ 0) × (phys_mod k ≤ s.globals.ppos)))
      × (t.globals.ppos ≡ s.globals.ppos + n)
      × (t.globals.phys ≡ s.globals.phys)
  Returns count s (negsuc e) t =
      ((e ≡ 11) ⊎ (e ≡ 13)) × (t.globals.ppos ≡ s.globals.ppos) × (t.globals.phys ≡ s.globals.phys)

  Returns-Ended : (count : ℕ) (s u : St Globals) (n : ℤ) → Ended count s n u → Returns count s n u
  Returns-Ended count s u (pos n) h = ground arith
  Returns-Ended count s u (negsuc e) h = ground arith

  no_address : (p : ℕ) → (p % phys_mod k == p) ≡ false → phys_mod k ≤ p
  no_address p other = elim (dec_lt p (phys_mod k)) [
    | yes lt ↦ ground (arith, other, mod-eq_of_lt lt)
    | no ge ↦ omega (arith, ge)
  ]

  -- Whatever the kernel answers, and wherever the position is, mem_map_read ends without a NULL
  -- access and within count + 1 rounds of its loop. It returns the count, or 0 where the position
  -- is no physical address, with the position moved on by the result; or -ENOMEM or -EFAULT with
  -- the position unchanged. Physical memory is unchanged in any case.
  pub mem_map_read-Returns :
      (buf count : ℕ) (s : St Globals)
      → After (Returns count s) (λ _. ⊥) (mem_map_read k buf count s)
  unfolding mem_map_read
  mem_map_read-Returns buf count s =
      let p = s.globals.ppos % phys_mod k in
      let bounce = k.kmalloc s.tick (page_size k) in
      let t : St Globals = record_call (Event.kmalloc (page_size k) bounce) s in
      elim (Bool-cases (p == s.globals.ppos)) [
        | inl same ↦ elim (Bool-cases (bounce == 0)) [
          | inl null ↦ rw (same, null) (inl refl, refl, refl)
          | inr block ↦
              rw (same, block)
                (After-mono (Ended count t) _ (λ _. ⊥)
                  (read_loop k (suc count) bounce buf p count 0 t)
                  (read_loop-Ended (suc count) bounce buf p count 0 count t (omega arith)
                    (omega arith))
                  (λ n u h. Returns-Ended count s u n h))
        ]
        | inr other ↦ rw other ((inr (refl, no_address s.globals.ppos other)), omega arith, refl)
      ]
