-- ===== src/MemMap/Seek.antt =====
-- `mem_map_lseek` of mem_map/mem_map.c. A `loff_t` is its 64-bit pattern.
use driver_module_test.Prelude.{
  ℕ, ◌+◌, ◌-◌, ◌%◌, ◌^◌, ◌≤◌, ◌<◌, ◌≡◌, ◌⊎◌, ℤ, pos, negsuc, ◌==◌, leb, ltb, if◌then◌else◌, arith,
}
use driver_module_test.Kernel.{St, ok, M, pure, get, put, ◌>>=◌, ◌>>◌}
use driver_module_test.Kernel.After.{After}
use driver_module_test.MemMap.{Globals}

abbrev pub word : ℕ
word = 2 ^ 64

-- The number that a pattern stands for.
abbrev pub signed : ℕ → ℤ
signed w = if ltb w (2 ^ 63) then pos w else negsuc (word - w - 1)

-- The last two cases of the `switch`, on the offset that they have in common.
unfoldable pub seek_set : ℕ → M Globals ℤ
seek_set offset =
    if leb (word - 4095) offset
    then pure (negsuc 74)
    else (do g ← get; put (record g { ppos = offset }); pure (signed offset))

unfoldable pub mem_map_lseek : (offset orig : ℕ) → M Globals ℤ
unfolding seek_set
mem_map_lseek offset orig =
    if orig == 1
    then (do g ← get; seek_set ((offset + g.ppos) % word))
    else if orig == 0
    then seek_set offset
    else pure (negsuc 21)

-- The place that a seek asks for.
abbrev pub target : (offset orig : ℕ) → St Globals → ℕ
target offset orig s = if orig == 1 then (offset + s.globals.ppos) % word else offset

-- A result below 0 and not below -4095 is an error, and then the position stays; any other result
-- is the new position, the one that was asked for.
abbrev pub Seeks : (offset orig : ℕ) → St Globals → ℤ → St Globals → Type 0
Seeks offset orig s n t =
    ((n ≡ signed (target offset orig s))
      × (t.globals.ppos ≡ target offset orig s)
      × (target offset orig s < word - 4095)
      × (orig < 2))
    ⊎ ((t.globals.ppos ≡ s.globals.ppos)
        × (((n ≡ negsuc 74) × (orig < 2) × (word - 4095 ≤ target offset orig s))
            ⊎ ((n ≡ negsuc 21) × (2 ≤ orig))))

-- For a 64-bit offset, mem_map_lseek either sets the position to the place asked for and returns
-- it, where the origin is SEEK_SET or SEEK_CUR and the place is no bit pattern of an error number;
-- or it leaves the position, and returns -EOVERFLOW where the origin is one of these and the place
-- is such a pattern, and -EINVAL where the origin is another.
pub mem_map_lseek-Seeks :
    (offset orig : ℕ) (s : St Globals)
    → offset < word
    → After (λ n t. Seeks offset orig s n t) (λ _. ⊥) (mem_map_lseek offset orig s)
unfolding mem_map_lseek
mem_map_lseek-Seeks offset orig s h = ground arith

-- Nothing but the position changes.
pub mem_map_lseek_rest :
    (offset orig : ℕ) (s : St Globals)
    → After
        (λ _ t. (t.user ≡ s.user) × (t.globals.phys ≡ s.globals.phys) × (t.history ≡ s.history))
        (λ _. ⊥)
        (mem_map_lseek offset orig s)
unfolding mem_map_lseek
mem_map_lseek_rest offset orig s = ground arith

-- A seek from the start to a place that is no error pattern goes there.
pub mem_map_lseek-set :
    (offset : ℕ) (s : St Globals)
    → offset < word - 4095
    → mem_map_lseek offset 0 s
      ≡ ok (signed offset) (record s { globals = record s.globals { ppos = offset } })
unfolding mem_map_lseek
mem_map_lseek-set offset s h = ground arith
