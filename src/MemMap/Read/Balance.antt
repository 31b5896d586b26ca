-- ===== src/MemMap/Read/Balance.antt =====
-- The resources of `mem_map_read`: its buffer and its mappings.
use driver_module_test.Prelude.{
  ℕ, zero, suc, ◌+◌, ◌-◌, ◌%◌, ◌<◌, ◌∙◌, refl, ap, ◌≡◌, Bool-cases, inl, inr, true, false, ◌==◌,
  if◌then◌else◌, arith,
}
use driver_module_test.Kernel.{Event, Kernel, St, record_call}
use driver_module_test.Kernel.Held.{Resource, held, effect, settle}
use driver_module_test.Kernel.After.{After, After-bind, After-mono}
use driver_module_test.MemMap.{Globals, page_size, phys_mod, size_inside_page, Serves}
use driver_module_test.MemMap.Page.{page_base, page_size-pos, size_inside_page-bounds}
use driver_module_test.MemMap.Read.{read_piece, read_loop, mem_map_read, failed, finish}

-- What is held without the buffer.
abbrev pub without : ℕ → Resource → ℕ → ℕ
without bounce (Resource.memory a) n = if bounce == a then n - 1 else n
without bounce r n = n

kfree-without :
    (bounce : ℕ) (r : Resource) (n : ℕ)
    → settle (effect (Event.kfree bounce) r) n ≡ without bounce r n
kfree-without bounce (Resource.memory a) n = ground arith
kfree-without bounce _ n = refl

kmalloc-without :
    (size bounce : ℕ) (r : Resource) (n : ℕ)
    → (bounce == 0) ≡ false
    → without bounce r (settle (effect (Event.kmalloc size bounce) r) n) ≡ n
kmalloc-without size bounce (Resource.memory a) n h = ground arith
kmalloc-without size bounce _ n h = refl

no_memory :
    (size bounce : ℕ) (r : Resource) (n : ℕ)
    → (bounce == 0) ≡ true
    → settle (effect (Event.kmalloc size bounce) r) n ≡ n
no_memory size bounce (Resource.memory a) n h = ground arith
no_memory size bounce _ n h = refl

module _ (k : Kernel) (laws : Serves k) where
  read_piece-held :
      (bounce buf p sz : ℕ) (s : St Globals) (r : Resource)
      → After (λ _ t. held r t.history ≡ held r s.history) (λ _. ⊥) (read_piece k bounce buf p sz s)
  unfolding read_piece
  read_piece-held bounce buf p sz s (Resource.mapping a) =
      let start = p - p % page_size k in
      ground (
        arith,
        page_base (k.memremap s.tick start) p (page_size k) (page_size-pos k)
            (laws.aligned s.tick start),
      )
  read_piece-held bounce buf p sz s _ = ground arith

  module _ (bounce held_before : ℕ) (r : Resource) where
    abbrev Released : St Globals → Type 0
    Released t = held r t.history ≡ without bounce r held_before

    failed-Released :
        (s : St Globals)
        → held r s.history ≡ held_before
        → After (λ _ t. Released t) (λ _. ⊥) (failed bounce s)
    unfolding failed
    failed-Released s h = kfree-without bounce r (held r s.history) ∙ ap (without bounce r) h

    finish-Released :
        (read : ℕ) (s : St Globals)
        → held r s.history ≡ held_before
        → After (λ _ t. Released t) (λ _. ⊥) (finish bounce read s)
    unfolding finish
    finish-Released read s h = kfree-without bounce r (held r s.history) ∙ ap (without bounce r) h

    read_loop-Released :
        (fuel buf p count read : ℕ) (s : St Globals)
        → count < fuel
        → held r s.history ≡ held_before
        → After (λ _ t. Released t) (λ _. ⊥) (read_loop k fuel bounce buf p count read s)
    unfolding read_loop
    read_loop-Released zero buf p count read s lt h = elim lt [ ]
    read_loop-Released (suc fuel) buf p count read s lt h = elim (Bool-cases (count == 0)) [
      | inl done ↦ rw done (finish-Released read s h)
      | inr more ↦ rw more (
          let sz = size_inside_page k p count in
          After-bind (λ _ t. held r t.history ≡ held r s.history) _ (λ _. ⊥)
            (read_piece k bounce buf p sz s) _ (read_piece-held bounce buf p sz s r)
            (elim [
              | true ↦ λ t e.
                  read_loop-Released fuel (buf + sz) ((p + sz) % phys_mod k) (count - sz)
                    (read + sz) t (omega (arith, size_inside_page-bounds k p count (ground arith)))
                    (e ∙ h)
              | false ↦ λ t e. failed-Released t (e ∙ h)
            ]))
    ]

-- On a kernel that serves mappings and copies, for any count and on every path, the error paths
-- included, mem_map_read ends with each resource held as often as before: the bounce buffer is
-- freed and every mapping is undone.
pub mem_map_read-held :
    (k : Kernel) (buf count : ℕ) (s : St Globals) (r : Resource)
    → Serves k
    → After (λ _ t. held r t.history ≡ held r s.history) (λ _. ⊥) (mem_map_read k buf count s)
unfolding mem_map_read
mem_map_read-held k buf count s r laws =
    let p = s.globals.ppos % phys_mod k in
    let bounce = k.kmalloc s.tick (page_size k) in
    let t : St Globals = record_call (Event.kmalloc (page_size k) bounce) s in
    elim (Bool-cases (p == s.globals.ppos)) [
      | inl same ↦ elim (Bool-cases (bounce == 0)) [
        | inl null ↦ rw (same, null) (no_memory (page_size k) bounce r (held r s.history) null)
        | inr block ↦
            rw (same, block)
              (After-mono (λ _ u. Released k laws bounce (held r t.history) r u) _ (λ _. ⊥)
                (read_loop k (suc count) bounce buf p count 0 t)
                (read_loop-Released k laws bounce (held r t.history) r (suc count) buf p count 0 t
                  (omega arith) refl)
                (λ _ u h. h ∙ kmalloc-without (page_size k) bounce r (held r s.history) block))
      ]
      | inr other ↦ rw other refl
    ]
