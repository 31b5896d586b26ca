-- ===== src/MemMap/File.antt =====
-- The device of mem_map as a program sees it: a flat file of bytes with a position. What such a
-- file may do is a relation, and a program's calls are a list.
pub mod Refines
use driver_module_test.Prelude.{
  ℕ, ◌+◌, ◌-◌, ◌*◌, ◌%◌, ◌≤◌, ◌<◌, ◌≡◌, ◌≢◌, ◌⊎◌, ◌==◌, if◌then◌else◌, ℤ, pos, negsuc, List, [],
  ◌∷◌,
}
use driver_module_test.Prelude.Blit.{blit}
use driver_module_test.Kernel.{Kernel, St, M, pure, ◌>>=◌, ◌>>◌}
use driver_module_test.MemMap.{Globals}
use driver_module_test.MemMap.Read.{mem_map_read}
use driver_module_test.MemMap.Write.{mem_map_write}
use driver_module_test.MemMap.Seek.{mem_map_lseek, word, signed}

-- The position, the bytes of the file, and the memory of the program.
pub record Flat : Type 0 where
  pub position : ℕ
  pub bytes : ℕ → ℕ
  pub memory : ℕ → ℕ

pub data Op : Type 0 where
  read : (buf count : ℕ) → Op
  write : (buf count : ℕ) → Op
  seek : (offset orig : ℕ) → Op

abbrev pub place : (offset orig : ℕ) → Flat → ℕ
place offset orig f = if orig == 1 then (offset % word + f.position) % word else offset % word

-- The first `n` bytes are stored, and of the rest of the `count` bytes each is as before, or zero.
abbrev pub IsFilled : (bytes memory : ℕ → ℕ) (at buf n count : ℕ) (after : ℕ → ℕ) (a : ℕ) → Type 0
IsFilled bytes memory at buf n count after a =
    (after a ≡ blit bytes memory at buf n a) ⊎ ((at + n ≤ a) × (a < at + count) × (after a ≡ 0))

-- What one call may return and leave behind. Past the end of the file nothing is promised, and
-- after a failed `read` nothing of the program's memory.
pub data Permits (limit : ℕ) (f : Flat) : Op → ℤ → Flat → Type 0 where
  delivered :
      (buf count n : ℕ) {g : Flat}
      → n ≡ count
      → g.position ≡ f.position + count
      → g.bytes ≡ f.bytes
      → g.memory ≡ blit f.memory f.bytes buf f.position count
      → Permits limit f (read buf count) (pos n) g
  not_read :
      (buf count e : ℕ) {g : Flat}
      → (e ≡ 11) ⊎ (e ≡ 13)
      → g.position ≡ f.position
      → g.bytes ≡ f.bytes
      → Permits limit f (read buf count) (negsuc e) g
  stored :
      (buf count n : ℕ) {g : Flat}
      → n ≤ count
      → (count ≢ 0 → 0 < n)
      → g.position ≡ f.position + n
      → g.memory ≡ f.memory
      → ((a : ℕ) → IsFilled f.bytes f.memory f.position buf n count g.bytes a)
      → Permits limit f (write buf count) (pos n) g
  not_written :
      (buf count e : ℕ) {g : Flat}
      → e ≡ 13
      → g.position ≡ f.position
      → g.memory ≡ f.memory
      → ((a : ℕ) → IsFilled f.bytes f.memory f.position buf 0 count g.bytes a)
      → Permits limit f (write buf count) (negsuc e) g
  too_far :
      (buf count e : ℕ) {g : Flat} → e ≡ 26 → g ≡ f → Permits limit f (write buf count) (negsuc e) g
  moved :
      (offset orig : ℕ) {n : ℤ} {g : Flat}
      → n ≡ signed (place offset orig f)
      → place offset orig f < word - 4095
      → orig < 2
      → g ≡ record f { position = place offset orig f }
      → Permits limit f (seek offset orig) n g
  not_moved :
      (offset orig : ℕ) {n : ℤ} {g : Flat}
      → ((n ≡ negsuc 74) × (orig < 2) × (word - 4095 ≤ place offset orig f))
        ⊎ ((n ≡ negsuc 21) × (2 ≤ orig))
      → g ≡ f
      → Permits limit f (seek offset orig) n g
  past_end_read :
      (buf count : ℕ) {n : ℤ} {g : Flat}
      → limit < f.position + count
      → Permits limit f (read buf count) n g
  past_end_write :
      (buf count : ℕ) {n : ℤ} {g : Flat}
      → limit < f.position + count
      → Permits limit f (write buf count) n g

-- The calls one after the other, with their results.
pub data Runs (limit : ℕ) : List Op → Flat → List ℤ → Flat → Type 0 where
  done : {f : Flat} → Runs limit [] f [] f
  one_more :
      {o : Op} {ops : List Op} {f g h : Flat} {n : ℤ} {ns : List ℤ}
      → Permits limit f o n g
      → Runs limit ops g ns h
      → Runs limit (o ∷ ops) f (n ∷ ns) h

module _ (k : Kernel) where
  -- An offset is a 64-bit pattern.
  abbrev pub perform : Op → M Globals ℤ
  perform (read buf count) = mem_map_read k buf count
  perform (write buf count) = mem_map_write k buf count
  perform (seek offset orig) = mem_map_lseek (offset % word) orig

  abbrev pub run_ops : List Op → M Globals (List ℤ)
  run_ops [] = pure []
  run_ops (o ∷ ops) = do n ← perform o; ns ← run_ops ops; pure (n ∷ ns)

abbrev pub view : St Globals → Flat
view s = record { position = s.globals.ppos; bytes = s.globals.phys; memory = s.user }
