-- ===== src/MemMap/Write/Content.antt =====
-- What `mem_map_write` stores.
use native.Mathlib.Nat.{one-le-pow}
use driver_module_test.Prelude.{
  ==_iff, ◌⊎◌, ℕ, zero, suc, ap, ◌+◌, ◌-◌, ◌%◌, ◌<◌, ◌≤◌, ◌≡◌, ◌≢◌, ℤ, pos, negsuc, Bool-cases, inl,
  inr, Option, none, some, ◌==◌, if◌then◌else◌, arith,
}
use driver_module_test.Prelude.Blit.{blit, padded}
use driver_module_test.Kernel.{Kernel, St, M}
use driver_module_test.Kernel.After.{After, After-bind, After-mono}
use driver_module_test.MemMap.{Globals, page_size, phys_mod, size_inside_page, Serves}
use driver_module_test.MemMap.Page.{mapped_piece, size_inside_page-bounds}
use driver_module_test.MemMap.Read.Content.{wrapped, wrapped-le}
use driver_module_test.MemMap.Write.{write_piece, write_loop, mem_map_write, stop}

module _ (k : Kernel) (laws : Serves k) (a : ℕ) where
  -- The part of a piece that was stored.
  abbrev Piece : (buf p sz : ℕ) → St Globals → Option ℕ → St Globals → Type 0
  Piece buf p sz s none t =
      (t.globals.ppos ≡ s.globals.ppos) × (t.user ≡ s.user) × (t.globals.phys a ≡ s.globals.phys a)
  Piece buf p sz s (some left) t =
      (t.globals.ppos ≡ s.globals.ppos)
      × (t.user ≡ s.user)
      × (left ≤ sz)
      × (t.globals.phys a ≡ padded s.globals.phys s.user p buf (sz - left) left a)

  write_piece-Piece :
      (buf p count : ℕ) (s : St Globals)
      → 0 < count
      → After
          (λ copied t. Piece buf p (size_inside_page k p count) s copied t)
          (λ _. ⊥)
          (write_piece k buf p (size_inside_page k p count) s)
  unfolding write_piece
  write_piece-Piece buf p count s h =
      let sz = size_inside_page k p count in
      let start = p - p % page_size k in
      let ptr = k.memremap s.tick start + p % page_size k in
      ground (
        arith,
        laws.rest_le (suc s.tick) s.globals.phys (k.translate s.tick start) s.user ptr buf sz,
        λ (there : k.memremap s.tick start ≢ 0).
            laws.from_user (suc s.tick) s.globals.phys (k.translate s.tick start) s.user ptr buf sz
              p a (λ i lt. mapped_piece k laws s.tick p count i there h lt),
      )

  -- The first `n` bytes of the buffer are at `p`, and of the rest of the `count` bytes there each is
  -- as before, or zero.
  abbrev pub IsFilled : (buf p n count : ℕ) → St Globals → St Globals → Type 0
  IsFilled buf p n count s t =
      (t.globals.phys a ≡ blit s.globals.phys s.user p buf n a)
      ⊎ ((p + n ≤ a) × (a < p + count) × (t.globals.phys a ≡ 0))

  abbrev Stored : (buf p count written : ℕ) → St Globals → ℤ → St Globals → Type 0
  Stored buf p count written s (pos n) t =
      (written ≤ n)
      × (n ≤ written + count)
      × (written + count ≢ 0 → 0 < n)
      × (t.globals.ppos ≡ s.globals.ppos + n)
      × (t.user ≡ s.user)
      × IsFilled buf p (n - written) count s t
  Stored buf p count written s (negsuc n) t =
      (n ≡ 13)
      × (written ≡ 0)
      × (t.globals.ppos ≡ s.globals.ppos)
      × (t.user ≡ s.user)
      × IsFilled buf p 0 count s t

  Stored-Piece :
      (buf p q sz count rest written : ℕ) (s t u : St Globals) (n : ℤ)
      → 0 < sz
      → count ≡ sz + rest
      → (rest ≢ 0 → q ≡ p + sz)
      → Piece buf p sz s (some 0) t
      → Stored (buf + sz) q rest (written + sz) t n u
      → Stored buf p count written s n u
  Stored-Piece buf p q sz count rest written s t u (pos n) l c e piece h =
      ground (arith, e, ap (λ f. f (buf + sz + (a - q))) piece.1)
  Stored-Piece buf p q sz count rest written s t u (negsuc n) l c e piece h = absurd (omega arith)

  stop-Stored :
      (buf p sz count left written : ℕ) (s t : St Globals)
      → 0 < count
      → sz ≤ count
      → left ≢ 0
      → Piece buf p sz s (some left) t
      → After (λ n u. Stored buf p count written s n u) (λ _. ⊥) (stop (written + (sz - left)) t)
  unfolding stop
  stop-Stored buf p sz count left written s t h le ne piece = ground arith

  module _ (buf p count written : ℕ) (s : St Globals) (loop : M Globals ℤ) (q sz rest : ℕ)
      (some_room : 0 < sz) (split : count ≡ sz + rest) (on : rest ≢ 0 → q ≡ p + sz)
      (ih : (t : St Globals)
        → After (λ n u. Stored (buf + sz) q rest (written + sz) t n u) (λ _. ⊥) (loop t)) where
    abbrev next : Option ℕ → M Globals ℤ
    next none = stop written
    next (some left) = if left == 0 then loop else stop (written + (sz - left))

    next-Stored :
        (copied : Option ℕ) (t : St Globals)
        → Piece buf p sz s copied t
        → After (λ n u. Stored buf p count written s n u) (λ _. ⊥) (next copied t)
    unfolding stop
    next-Stored none t piece = ground arith
    next-Stored (some left) t piece = elim (Bool-cases (left == 0)) [
      | inl all ↦ rw all (
          After-mono (λ n u. Stored (buf + sz) q rest (written + sz) t n u) _ (λ _. ⊥) (loop t)
            (ih t)
            (λ n u h.
              Stored-Piece buf p q sz count rest written s t u n some_room split on
                (ground (arith, piece)) h))
      | inr part ↦ rw part (
          stop-Stored buf p sz count left written s t (omega arith) (omega arith)
            (ground (arith, part)) piece)
    ]

  write_loop-Stored :
      (fuel buf p count written : ℕ) (s : St Globals)
      → count < fuel
      → p + count ≤ phys_mod k
      → After
          (λ n t. Stored buf p count written s n t)
          (λ _. ⊥)
          (write_loop k fuel buf p count written s)
  unfolding write_loop
  write_loop-Stored zero buf p count written s lt le = elim lt [ ]
  write_loop-Stored (suc fuel) buf p count written s lt le = elim (Bool-cases (count == 0)) [
    | inl done ↦ rw done (ground arith)
    | inr more ↦ rw more (
        let sz = size_inside_page k p count in
        let rest = count - sz in
        let q = (p + sz) % phys_mod k in
        let bounds = size_inside_page-bounds k p count (ground arith) in
        let split : count ≡ sz + rest = omega (arith, bounds) in
        let fits : p + (sz + rest) ≤ phys_mod k = omega (arith, bounds) in
        After-bind (λ copied t. Piece buf p sz s copied t) _ (λ _. ⊥) (write_piece k buf p sz s) _
          (write_piece-Piece buf p count s (ground arith))
          (next-Stored buf p count written s (write_loop k fuel (buf + sz) q rest (written + sz)) q
            sz rest bounds.0 split (wrapped p sz rest (phys_mod k) fits)
            (λ t.
              write_loop-Stored fuel (buf + sz) q rest (written + sz) t (omega (arith, bounds))
                (wrapped-le p sz rest (phys_mod k) (one-le-pow k.phys_bits 2 (omega arith)) fits))))
  ]

  -- The first `n` bytes are stored and the position moves on by `n`, where `n` is at most what was
  -- asked for, and not 0 unless that was; or there is an error and nothing changes.
  abbrev pub Writes : (buf count : ℕ) → St Globals → ℤ → St Globals → Type 0
  Writes buf count s (pos n) t =
      (n ≤ count)
      × (count ≢ 0 → 0 < n)
      × (t.globals.ppos ≡ s.globals.ppos + n)
      × (t.user ≡ s.user)
      × IsFilled buf s.globals.ppos n count s t
  Writes buf count s (negsuc n) t =
      (((n ≡ 13) × IsFilled buf s.globals.ppos 0 count s t)
        ⊎ ((n ≡ 26) × (t.globals.phys a ≡ s.globals.phys a)))
      × (t.globals.ppos ≡ s.globals.ppos)
      × (t.user ≡ s.user)

  Writes-Stored :
      (buf p count : ℕ) (s t : St Globals) (n : ℤ)
      → p ≡ s.globals.ppos
      → Stored buf p count 0 s n t
      → Writes buf count s n t
  Writes-Stored buf p count s t (pos n) e h = ground arith
  Writes-Stored buf p count s t (negsuc n) e h = ground arith

  -- On a kernel that serves mappings and copies, where a copy_from_user zeroes what it does not
  -- copy, and for a range that does not pass the last physical address, mem_map_write does not
  -- run out of fuel and makes no NULL access. The caller's memory is unchanged. If it returns a
  -- number n, then n is at most the count, above 0 unless the count is 0, the position has moved
  -- on by n, and the n physical bytes from the position on are replaced by the first n bytes of
  -- the buffer; if it returns -EFAULT, the position is unchanged, and n is 0 in what follows. A
  -- physical byte outside those n is as before, or it is among the remaining bytes of the count
  -- and zero. Otherwise it returns -EFBIG and neither memory nor the position changes.
  pub mem_map_write-Writes :
      (buf count : ℕ) (s : St Globals)
      → s.globals.ppos + count ≤ phys_mod k
      → After (λ n t. Writes buf count s n t) (λ _. ⊥) (mem_map_write k buf count s)
  unfolding mem_map_write
  mem_map_write-Writes buf count s le =
      let p = s.globals.ppos % phys_mod k in
      elim (Bool-cases (p == s.globals.ppos)) [
        | inl same ↦ rw same (
            After-mono (λ n u. Stored buf p count 0 s n u) _ (λ _. ⊥)
              (write_loop k (suc count) buf p count 0 s)
              (write_loop-Stored (suc count) buf p count 0 s (omega arith)
                (omega (arith, (==_iff p s.globals.ppos).0 same)))
              (λ n u h. Writes-Stored buf p count s u n ((==_iff p s.globals.ppos).0 same) h))
        | inr other ↦ rw other (ground arith)
      ]
