-- ===== src/Fdc/Contents.antt =====
-- What `fdc_read_sectors` of src/fdc.c reads, over a controller and a channel that do
-- what they are documented to do.
use sant_os.Prelude.{
  ℕ, ◌+◌, ◌*◌, ◌/◌, ◌%◌, ◌<◌, ◌≤◌, Mem, Bool, true, Option, some, ltb, if◌then◌else◌, ◌≡◌,
}
use sant_os.Fdc.{Machine, Driver}
use sant_os.Fdc.Protocol.{IsController}
use sant_os.Fdc.Geometry.{OnDisk, place}

-- `sectors` sectors from `lba` on stand at the start of a buffer, which is `old` behind them.
abbrev pub Holds : (ℕ → Mem) → ℕ → ℕ → Mem → Mem → Type 0
Holds disk lba sectors old buffer =
    (k : ℕ) → buffer k ≡ (if ltb k (sectors * 512) then disk (lba + k / 512) (k % 512) else old k)

module _ (M : Machine) (medium : M.Device → ℕ → Mem) (Quiet : M.Device → Type 0)
    (ok : IsController M medium Quiet) where
  -- What a transfer leaves.
  record Transfers (c h s n : ℕ) (f : Driver M) (r : Driver M × Option (Unit {0})) : Type 0 where
    keeps : Quiet r.0.device × (medium r.0.device ≡ medium f.device)
    gives :
        (u : Unit {0})
        → OnDisk (c, h, s)
        → 1 ≤ n
        → s + n ≤ 19
        → r.1 ≡ some u
        → (k : ℕ) → k < n * 512
        → M.dma_buffer r.0.device k ≡ medium f.device (place (c, h, s) + k / 512) (k % 512)

  -- A result of reading: the medium is as it was, and if the result is success, then the buffer
  -- holds the sectors and nothing else in it has changed.
  pub record IsRead (disk : ℕ → Mem) (lba count : ℕ) (old : Mem) (r : Driver M × Mem × Bool)
      : Type 0 where
    pub still : Quiet r.0.device
    pub keeps : medium r.0.device ≡ disk
    pub holds : r.2 ≡ true → Holds disk lba count old r.1
