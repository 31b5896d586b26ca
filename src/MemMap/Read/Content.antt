-- ===== src/MemMap/Read/Content.antt =====
-- What `mem_map_read` hands over.
use native.Mathlib.Nat.{mod-eq_of_lt, mod-lt, one-le-pow}
use native.Mathlib.Decide.{dec_lt}
use driver_module_test.Prelude.{
  ==_iff, ℕ, zero, suc, ◌+◌, ◌-◌, ◌%◌, ap, ◌∙◌, ◌≤◌, ◌<◌, ◌≡◌, ◌≢◌, ℤ, pos, negsuc, is_zero, Bool,
  Bool-cases, inl, inr, ◌⊎◌, true, false, ◌==◌, if◌then◌else◌, arith, refl,
}
use driver_module_test.Prelude.Blit.{blit, blit-cong}
use driver_module_test.Kernel.{Event, Kernel, St, M, record_call}
use driver_module_test.Kernel.After.{After, After-bind, After-mono}
use driver_module_test.MemMap.{Globals, page_size, phys_mod, size_inside_page, Serves}
use driver_module_test.MemMap.Page.{mapped_piece, size_inside_page-bounds}
use driver_module_test.MemMap.Read.{read_piece, read_loop, mem_map_read, failed}

is_zero→eq : (r : ℤ) → is_zero r ≡ true → r ≡ pos 0
is_zero→eq (pos zero) h = refl
is_zero→eq (pos (suc n)) h = cc
is_zero→eq (negsuc n) h = cc

-- The position after a piece, where the whole does not go past the end of the addresses.
pub wrapped : (p sz rest m : ℕ) → p + (sz + rest) ≤ m → rest ≢ 0 → (p + sz) % m ≡ p + sz
wrapped p sz rest m le ne = mod-eq_of_lt (omega arith)

pub wrapped-le : (p sz rest m : ℕ) → 0 < m → p + (sz + rest) ≤ m → (p + sz) % m + rest ≤ m
wrapped-le p sz rest m h le = ground (arith, wrapped p sz rest m le, mod-lt (p + sz) h)

-- A position that is no physical address leaves nothing to read below the end of the addresses.
pub outside : (x count m : ℕ) → x + count ≤ m → (x % m == x) ≡ false → count ≡ 0
outside x count m le ne = elim (dec_lt x m) [
  | yes lt ↦ absurd (ground (arith, mod-eq_of_lt lt))
  | no ge ↦ omega arith
]

module _ (k : Kernel) (laws : Serves k) where
  -- Through the mapping to the bounce buffer, and from there to the caller.
  arrived :
      (t u v : ℕ) (user memory phys : ℕ → ℕ) (bounce buf p count a : ℕ)
      → let sz = size_inside_page k p count in
        let start = p - p % page_size k in
        let source : ℕ → ℕ = λ b. phys (k.translate t start b) in
        let probe =
          k.probe_kernel_read u memory source bounce (k.memremap t start + p % page_size k) sz in
        let copy = k.copy_to_user v user probe.1 buf bounce sz in
        0 < count
        → k.memremap t start ≢ 0
        → is_zero probe.0 ≡ true
        → copy.0 ≡ 0
        → copy.1 a ≡ blit user phys buf p sz a
  arrived t u v user memory phys bounce buf p count a h there probed copied =
      let sz = size_inside_page k p count in
      let start = p - p % page_size k in
      let source : ℕ → ℕ = λ b. phys (k.translate t start b) in
      let ptr = k.memremap t start + p % page_size k in
      let probe = k.probe_kernel_read u memory source bounce ptr sz in
      laws.to_user v user probe.1 buf bounce sz a copied
      ∙ blit-cong user probe.1 phys buf bounce p sz a (λ i lt.
        laws.probed u memory source bounce ptr sz i (is_zero→eq probe.0 probed) lt
        ∙ ap phys (mapped_piece k laws t p count i there h lt))

  -- A piece that went over: the caller has its bytes.
  abbrev Piece : (buf p sz a : ℕ) → St Globals → Bool → St Globals → Type 0
  Piece buf p sz a s copied t =
      (t.globals.ppos ≡ s.globals.ppos)
      × (t.globals.phys ≡ s.globals.phys)
      × (copied ≡ true → t.user a ≡ blit s.user s.globals.phys buf p sz a)

  read_piece-Piece :
      (bounce buf p count a : ℕ) (s : St Globals)
      → 0 < count
      → After
          (λ copied t. Piece buf p (size_inside_page k p count) a s copied t)
          (λ _. ⊥)
          (read_piece k bounce buf p (size_inside_page k p count) s)
  unfolding read_piece
  read_piece-Piece bounce buf p count a s h = ground (
    arith,
    arrived s.tick (suc s.tick) (suc (suc s.tick)) s.user s.memory s.globals.phys bounce buf p count
        a h,
  )

  -- The result of the loop: all the bytes and the position moved on, or -EFAULT.
  abbrev Handed : (buf p count read a : ℕ) → St Globals → ℤ → St Globals → Type 0
  Handed buf p count read a s (pos n) t =
      (n ≡ read + count)
      × (t.globals.ppos ≡ s.globals.ppos + n)
      × (t.globals.phys ≡ s.globals.phys)
      × (t.user a ≡ blit s.user s.globals.phys buf p count a)
  Handed buf p count read a s (negsuc n) t =
      (n ≡ 13) × (t.globals.ppos ≡ s.globals.ppos) × (t.globals.phys ≡ s.globals.phys)

  -- A piece, and then the rest.
  Handed-Piece :
      (buf p q sz count rest read a : ℕ) (s t u : St Globals) (n : ℤ)
      → count ≡ sz + rest
      → (rest ≢ 0 → q ≡ p + sz)
      → Piece buf p sz a s true t
      → Handed (buf + sz) q rest (read + sz) a t n u
      → Handed buf p count read a s n u
  Handed-Piece buf p q sz count rest read a s t u (pos n) c e piece h =
      ground (arith, e, ap (λ f. f (q + (a - (buf + sz)))) piece.1)
  Handed-Piece buf p q sz count rest read a s t u (negsuc n) c e piece h = ground arith

  module _ (bounce buf p count read a : ℕ) (s : St Globals) (loop : M Globals ℤ) (q sz rest : ℕ)
      (split : count ≡ sz + rest) (on : rest ≢ 0 → q ≡ p + sz)
      (ih : (t : St Globals)
        → After (λ n u. Handed (buf + sz) q rest (read + sz) a t n u) (λ _. ⊥) (loop t)) where
    round-Handed :
        (copied : Bool) (t : St Globals)
        → Piece buf p sz a s copied t
        → After
            (λ n u. Handed buf p count read a s n u)
            (λ _. ⊥)
            ((if copied then loop else failed bounce) t)
    unfolding failed
    round-Handed false t piece = ground arith
    round-Handed true t piece =
        After-mono (λ n u. Handed (buf + sz) q rest (read + sz) a t n u) _ (λ _. ⊥) (loop t) (ih t)
          (λ n u h. Handed-Piece buf p q sz count rest read a s t u n split on piece h)

  read_loop-Handed :
      (fuel bounce buf p count read a : ℕ) (s : St Globals)
      → count < fuel
      → p + count ≤ phys_mod k
      → After
          (λ n t. Handed buf p count read a s n t)
          (λ _. ⊥)
          (read_loop k fuel bounce buf p count read s)
  unfolding read_loop
  read_loop-Handed zero bounce buf p count read a s lt le = elim lt [ ]
  read_loop-Handed (suc fuel) bounce buf p count read a s lt le = elim (Bool-cases (count == 0)) [
    | inl done ↦ rw done (ground arith)
    | inr more ↦ rw more (
        let sz = size_inside_page k p count in
        let rest = count - sz in
        let q = (p + sz) % phys_mod k in
        let bounds = size_inside_page-bounds k p count (ground arith) in
        let split : count ≡ sz + rest = omega (arith, bounds) in
        let fits : rest ≢ 0 → q ≡ p + sz =
          λ ne. wrapped p sz rest (phys_mod k) (omega (arith, bounds)) ne in
        let next_le : q + rest ≤ phys_mod k =
          wrapped-le p sz rest (phys_mod k) (one-le-pow k.phys_bits 2 (omega arith))
            (omega (arith, bounds)) in
        After-bind (λ copied t. Piece buf p sz a s copied t) _ (λ _. ⊥)
          (read_piece k bounce buf p sz s) _
          (read_piece-Piece bounce buf p count a s (ground arith))
          (round-Handed bounce buf p count read a s
            (read_loop k fuel bounce (buf + sz) q rest (read + sz)) q sz rest split fits
            (λ t.
              read_loop-Handed fuel bounce (buf + sz) q rest (read + sz) a t (omega (arith, bounds))
                next_le)))
  ]

  -- All the bytes asked for, or an error with the position where it was.
  abbrev pub Reads : (buf count a : ℕ) → St Globals → ℤ → St Globals → Type 0
  Reads buf count a s (pos n) t =
      (n ≡ count)
      × (t.globals.ppos ≡ s.globals.ppos + count)
      × (t.globals.phys ≡ s.globals.phys)
      × (t.user a ≡ blit s.user s.globals.phys buf s.globals.ppos count a)
  Reads buf count a s (negsuc n) t =
      ((n ≡ 11) ⊎ (n ≡ 13)) × (t.globals.ppos ≡ s.globals.ppos) × (t.globals.phys ≡ s.globals.phys)

  Reads-Handed :
      (buf p count a : ℕ) (s t : St Globals) (n : ℤ)
      → p ≡ s.globals.ppos
      → Handed buf p count 0 a s n t
      → Reads buf count a s n t
  Reads-Handed buf p count a s t (pos n) e h = ground arith
  Reads-Handed buf p count a s t (negsuc n) e h = ground arith

  -- On a kernel that serves mappings and copies, and for a range that does not pass the last
  -- physical address, mem_map_read does not run out of fuel and makes no NULL access. If it
  -- returns a number, that is the count asked for, the position has moved on by it, physical
  -- memory is unchanged, and each byte of the caller's memory is the one before or, inside the
  -- buffer, the physical byte at the position; otherwise it returns -ENOMEM or -EFAULT, with the
  -- position and physical memory unchanged.
  pub mem_map_read-Reads :
      (buf count a : ℕ) (s : St Globals)
      → s.globals.ppos + count ≤ phys_mod k
      → After (λ n t. Reads buf count a s n t) (λ _. ⊥) (mem_map_read k buf count s)
  unfolding mem_map_read
  mem_map_read-Reads buf count a s le =
      let p = s.globals.ppos % phys_mod k in
      let bounce = k.kmalloc s.tick (page_size k) in
      let t : St Globals = record_call (Event.kmalloc (page_size k) bounce) s in
      elim (Bool-cases (p == s.globals.ppos)) [
        | inl same ↦ elim (Bool-cases (bounce == 0)) [
          | inl null ↦ rw (same, null) (ground arith)
          | inr block ↦
              rw (same, block)
                (After-mono (λ n u. Handed buf p count 0 a t n u) _ (λ _. ⊥)
                  (read_loop k (suc count) bounce buf p count 0 t)
                  (read_loop-Handed (suc count) bounce buf p count 0 a t (omega arith)
                    (omega (arith, (==_iff p s.globals.ppos).0 same)))
                  (λ n u h. Reads-Handed buf p count a t u n ((==_iff p s.globals.ppos).0 same) h))
        ]
        | inr other ↦ rw other (ground (arith, outside s.globals.ppos count (phys_mod k) le other))
      ]
