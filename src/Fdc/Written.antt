-- ===== src/Fdc/Written.antt =====
-- What `fdc_write_sectors` of src/fdc.c writes, over a controller and a channel that
-- do what they are documented to do.
use sant_os.Prelude.{ℕ, ◌+◌, ◌-◌, ◌*◌, ◌<◌, Mem, ◌&&◌, ltb, leb, if◌then◌else◌, ◌≡◌}
use sant_os.Fat12.Data.{put_bytes}
use sant_os.Fdc.{Machine}
use sant_os.Fdc.Protocol.{IsController}

module _ (M : Machine) (medium : M.Device → ℕ → Mem) (Quiet : M.Device → Type 0)
    (ok : IsController M medium Quiet) where
  -- Sectors that were written: `sectors` from `lba` on are those of the buffer, the others are as
  -- they were on the disk.
  abbrev pub Written : (ℕ → Mem) → ℕ → ℕ → Mem → (ℕ → Mem) → Type 0
  Written disk lba sectors buffer disk' =
      (l j : ℕ)
      → j < 512
      → disk' l j
        ≡ (if leb lba l && ltb l (lba + sectors) then buffer ((l - lba) * 512 + j) else disk l j)

  filled_device : Mem → ℕ → M.Device → M.Device
  filled_device buffer i d =
      M.set_dma_buffer (put_bytes (M.dma_buffer d) 0 512 (λ j. buffer (i * 512 + j))) d

  pub record IsWritten (disk : ℕ → Mem) (lba sectors : ℕ) (buffer : Mem) (disk' : ℕ → Mem)
      : Type 0 where
    pub sectors_hold : Written disk lba sectors buffer disk'
