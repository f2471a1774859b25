-- ===== src/Fat12/Disk.antt =====
-- What src/fat12.c sees of the floppy: `fdc_read_sectors` and `fdc_write_sectors` of src/fdc.c,
-- over a state that holds the drive and its medium.
use sant_os.Prelude.{ℕ, Mem, Bool, true, Option, some, ◌≡◌, if◌then◌else◌, ◌==◌}

pub record Disk : Type 1 where
  pub Drive : Type 0
  -- The bytes of `count` sectors from `lba` on, or the failure that the C code returns as -1.
  pub read_sectors : Drive → ℕ → ℕ → Drive × Option Mem
  pub write_sectors : Drive → ℕ → ℕ → Mem → Drive × Bool

-- What a drive that works promises of single sectors: a sector reads as it was last written, and
-- a write that succeeds changes no other sector. `sector` is what the medium holds.
pub record IsReliable (D : Disk) (sector : D.Drive → ℕ → Mem) : Type 0 where
  pub read_gives :
      (d : D.Drive) (lba : ℕ) {buf : Mem}
      → (D.read_sectors d lba 1).1 ≡ some buf
      → buf ≡ sector d lba
  pub read_keeps : (d : D.Drive) (lba n : ℕ) → sector (D.read_sectors d lba n).0 ≡ sector d
  pub write_puts :
      (d : D.Drive) (lba : ℕ) (buf : Mem)
      → (D.write_sectors d lba 1 buf).1 ≡ true
      → (l : ℕ) → sector (D.write_sectors d lba 1 buf).0 l ≡ (if l == lba then buf else sector d l)
