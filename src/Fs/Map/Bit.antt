-- ===== src/Fs/Map/Bit.antt =====
-- Setting a bit of a sector.
use krven_os.Common.{
  ℕ, ◌/◌, ◌%◌, ◌≡◌, arith, ◌==◌, false, ◌||◌, if◌then◌else◌, Bool-cases, inl, inr,
}
use krven_os.Common.Bits.{has_bit-set_bit}
use krven_os.Fs.{Fs, Sector, bit_at, mark_bit, fs_read, fs_write}

-- The bit is set, and no other bit of the sector changes.
pub bit_at-mark_bit :
    (buf : Sector) (b c : ℕ) → bit_at (mark_bit buf b) c ≡ ((c == b) || bit_at buf c)
bit_at-mark_bit buf b c = elim (Bool-cases (c / 8 == b / 8)) [
  | inl same ↦
      let e : c / 8 ≡ b / 8 = ground arith in
      rw (same, has_bit-set_bit (b % 8) (buf (b / 8)) (c % 8), e) (ground arith)
  | inr other ↦ let ne : (c == b) ≡ false = ground arith in rw (other, ne)
]

-- A sector that is read after a write.
pub fs_read-fs_write :
    (s t : ℕ) (buf : Sector) (fs : Fs)
    → fs_read t (fs_write s buf fs) ≡ (if t == s then buf else fs_read t fs)
fs_read-fs_write s t buf fs = ground arith
