-- ===== src/MemMap/Write/Balance.antt =====
-- The resources of `mem_map_write`: its mappings.
use driver_module_test.Prelude.{
  ℕ, zero, suc, ◌+◌, ◌-◌, ◌%◌, ◌<◌, ◌∙◌, refl, ◌≡◌, Bool-cases, inl, inr, none, some, ◌==◌, arith,
}
use driver_module_test.Kernel.{Kernel, St}
use driver_module_test.Kernel.Held.{Resource, held}
use driver_module_test.Kernel.After.{After, After-bind}
use driver_module_test.MemMap.{Globals, page_size, phys_mod, size_inside_page, Serves}
use driver_module_test.MemMap.Page.{page_base, page_size-pos, size_inside_page-bounds}
use driver_module_test.MemMap.Write.{write_piece, write_loop, mem_map_write, stop}

module _ (k : Kernel) (laws : Serves k) where
  piece_held :
      (buf p sz : ℕ) (s : St Globals) (r : Resource)
      → After (λ _ t. held r t.history ≡ held r s.history) (λ _. ⊥) (write_piece k buf p sz s)
  unfolding write_piece
  piece_held buf p sz s (Resource.mapping a) =
      let start = p - p % page_size k in
      ground (
        arith,
        page_base (k.memremap s.tick start) p (page_size k) (page_size-pos k)
            (laws.aligned s.tick start),
      )
  piece_held buf p sz s _ = ground arith

  stop-held :
      (written before : ℕ) (s : St Globals) (r : Resource)
      → held r s.history ≡ before
      → After (λ _ t. held r t.history ≡ before) (λ _. ⊥) (stop written s)
  unfolding stop
  stop-held written before s r h = ground arith

  module _ (r : Resource) (before : ℕ) where
    abbrev Same : {A : Type 0} → A → St Globals → Type 0
    Same _ t = held r t.history ≡ before

    write_loop-held :
        (fuel buf p count written : ℕ) (s : St Globals)
        → count < fuel
        → held r s.history ≡ before
        → After Same (λ _. ⊥) (write_loop k fuel buf p count written s)
    unfolding write_loop
    write_loop-held zero buf p count written s lt h = elim lt [ ]
    write_loop-held (suc fuel) buf p count written s lt h = elim (Bool-cases (count == 0)) [
      | inl done ↦ rw done h
      | inr more ↦ rw more (
          let sz = size_inside_page k p count in
          After-bind (λ _ t. held r t.history ≡ held r s.history) _ (λ _. ⊥)
            (write_piece k buf p sz s) _ (piece_held buf p sz s r)
            (elim [
              | none ↦ λ t e. stop-held written before t r (e ∙ h)
              | some left ↦ λ t e. elim (Bool-cases (left == 0)) [
                | inl all ↦ rw all (
                    write_loop-held fuel (buf + sz) ((p + sz) % phys_mod k) (count - sz)
                      (written + sz) t
                      (omega (arith, size_inside_page-bounds k p count (ground arith))) (e ∙ h))
                | inr part ↦ rw part (stop-held (written + (sz - left)) before t r (e ∙ h))
              ]
            ]))
    ]

  -- On a kernel that serves mappings and copies, for any count and on every path, the error paths
  -- included, mem_map_write ends with each resource held as often as before: every mapping is
  -- undone.
  pub mem_map_write-held :
      (buf count : ℕ) (s : St Globals) (r : Resource)
      → After (λ _ t. held r t.history ≡ held r s.history) (λ _. ⊥) (mem_map_write k buf count s)
  unfolding mem_map_write
  mem_map_write-held buf count s r =
      let p = s.globals.ppos % phys_mod k in
      elim (Bool-cases (p == s.globals.ppos)) [
        | inl same ↦
            rw same
              (write_loop-held r (held r s.history) (suc count) buf p count 0 s (omega arith) refl)
        | inr other ↦ rw other refl
      ]
