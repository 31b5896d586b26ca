-- ===== src/MemMap/Page.antt =====
-- Pages, and the pieces of a range that the handlers of mem_map copy one by one.
use native.Mathlib.Nat.{add_assoc, zero-add, mod-lt, mod-le, mod-mod, mod-add-mod, one-le-pow}
use driver_module_test.Prelude.{ℕ, ◌+◌, ◌-◌, ◌%◌, ◌≤◌, ◌<◌, ◌≡◌, ◌≢◌, sym, ap, ◌∙◌, arith}
use driver_module_test.Kernel.{Kernel}
use driver_module_test.MemMap.{page_size, size_inside_page, Serves}

module _ (k : Kernel) where
  pub page_size-pos : 0 < page_size k
  page_size-pos = one-le-pow k.page_shift 2 (omega arith)

  offset-lt : (p : ℕ) → p % page_size k < page_size k
  offset-lt p = mod-lt p page_size-pos

  -- For a size above 0, size_inside_page is above 0, at most that size, and ends within the page
  -- of the start.
  pub size_inside_page-bounds :
      (p size : ℕ)
      → 0 < size
      → (0 < size_inside_page k p size)
        × (size_inside_page k p size ≤ size)
        × (p % page_size k + size_inside_page k p size ≤ page_size k)
  unfolding size_inside_page
  size_inside_page-bounds p size h = ground (arith, offset-lt p)

  -- Where the mapping of `p` leads, up to the end of the page.
  pub mapped_piece :
      Serves k
      → (t p size i : ℕ)
      → let start = p - p % page_size k in
        k.memremap t start ≢ 0
        → 0 < size
        → i < size_inside_page k p size
        → k.translate t start (k.memremap t start + p % page_size k + i) ≡ p + i
  mapped_piece laws t p size i there pos lt =
      let off = p % page_size k in
      let start = p - off in
      ap (k.translate t start) (add_assoc (k.memremap t start) off i)
      ∙ laws.mapped t start (off + i) there (omega (arith, size_inside_page-bounds p size pos))
      ∙ omega (arith, mod-le p (page_size k))

-- Rounding a mapped address down gives the mapping back.
pub page_base : (v p m : ℕ) → 0 < m → v % m ≡ 0 → v + p % m - (v + p % m) % m ≡ v
page_base v p m pos h =
    let offset : (v + p % m) % m ≡ p % m =
      sym (mod-add-mod v m (p % m)) ∙ ap (λ x. (x + p % m) % m) h ∙ rw zero-add (mod-mod p m) in
    omega (arith, offset)
