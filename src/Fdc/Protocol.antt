-- ===== src/Fdc/Protocol.antt =====
-- What a floppy controller and a DMA channel are documented to do with what is put to their ports,
-- without reference to src/fdc.c.
use sant_os.Prelude.{
  ℕ, ◌+◌, ◌-◌, ◌*◌, ◌/◌, ◌%◌, ◌<◌, ◌≤◌, Mem, true, false, ◌&&◌, List, [], ◌∷◌, ◌++◌, ◌==◌, ◌≡◌,
  length, nonzero, bit_and, if◌then◌else◌,
}
use sant_os.Fdc.{Machine}
use sant_os.Fdc.Geometry.{OnDisk, place}

-- What passes between a program and the machine from one state to another: the bytes put out, with
-- their ports, and the bytes read from the data port 0x3F5. A byte goes through the data port only
-- when the main status register, 0x3F4, has just said that the controller is ready for it.
pub data Exchange (M : Machine) : List (ℕ × ℕ) → List ℕ → M.Device → M.Device → Type 0 where
  done : {d : M.Device} → Exchange M [] [] d d
  polls :
      {out : List (ℕ × ℕ)} {back : List ℕ} {d d' : M.Device}
      → Exchange M out back (M.inb 0x3F4 d).0 d'
      → Exchange M out back d d'
  waits :
      {out : List (ℕ × ℕ)} {back : List ℕ} {d d' : M.Device}
      → Exchange M out back (M.halt d).0 d'
      → Exchange M out back d d'
  puts :
      {out : List (ℕ × ℕ)} {back : List ℕ} {d d' : M.Device} (port value : ℕ)
      → (port == 0x3F5) ≡ false
      → Exchange M out back (M.outb port value d).0 d'
      → Exchange M ((port, value) ∷ out) back d d'
  sends :
      {out : List (ℕ × ℕ)} {back : List ℕ} {d d' : M.Device} (value : ℕ)
      → nonzero (bit_and (M.inb 0x3F4 d).1 0x80) ≡ true
      → Exchange M out back (M.outb 0x3F5 value (M.inb 0x3F4 d).0).0 d'
      → Exchange M ((0x3F5, value) ∷ out) back d d'
  receives :
      {out : List (ℕ × ℕ)} {back : List ℕ} {d d' : M.Device}
      → nonzero (bit_and (M.inb 0x3F4 d).1 0x80) ≡ true
      → Exchange M out back (M.inb 0x3F5 (M.inb 0x3F4 d).0).0 d'
      → Exchange M out ((M.inb 0x3F5 (M.inb 0x3F4 d).0).1 ∷ back) d d'

-- Channel 2, masked meanwhile: its mode, the buffer at 0x20000, and the count of bytes less 1.
abbrev pub channel_bytes : ℕ → ℕ → List (ℕ × ℕ)
channel_bytes mode count =
    (0x0A, 0x06)
    ∷ (0x0C, 0xFF)
    ∷ (0x0B, mode)
    ∷ (0x04, 0x00)
    ∷ (0x04, 0x00)
    ∷ (0x81, 0x02)
    ∷ (0x05, (count - 1) % 256)
    ∷ (0x05, (count - 1) / 256)
    ∷ (0x0A, 0x02)
    ∷ []

-- A command for sectors of 512 bytes from (c, h, s) on, up to the sector `last` of the track.
abbrev pub command_bytes : ℕ → ℕ → ℕ → ℕ → ℕ → List (ℕ × ℕ)
command_bytes code c h s last =
    (0x3F5, code)
    ∷ (0x3F5, h * 4)
    ∷ (0x3F5, c)
    ∷ (0x3F5, h)
    ∷ (0x3F5, s)
    ∷ (0x3F5, 2)
    ∷ (0x3F5, last)
    ∷ (0x3F5, 0x1B)
    ∷ (0x3F5, 0xFF)
    ∷ []

-- READ DATA of `n` sectors, with a channel that writes to memory, and WRITE DATA of one sector,
-- with a channel that reads from it. Both transfer in the MFM format.
abbrev pub read_bytes : ℕ → ℕ → ℕ → ℕ → List (ℕ × ℕ)
read_bytes c h s n = channel_bytes 0x46 (n * 512) ++ command_bytes 0x46 c h s (s + n - 1)

abbrev pub write_bytes : ℕ → ℕ → ℕ → List (ℕ × ℕ)
write_bytes c h s = channel_bytes 0x4A 512 ++ command_bytes 0x45 c h s 18

-- The seven result bytes of a command that ended normally.
abbrev pub IsNormal : List ℕ → Type 0
IsNormal [] = ⊥
IsNormal (st0 ∷ results) = (nonzero (bit_and st0 0xC0) ≡ false) × (length results ≡ 6)

-- The controller and its medium, `medium d` for the sectors that it holds. `Quiet d` says that the
-- channel is not set up for a transfer to the medium.
pub record IsController (M : Machine) (medium : M.Device → ℕ → Mem) (Quiet : M.Device → Type 0)
    : Type 0 where
  -- Only the mode 0x4A of the channel makes a transfer to the medium possible.
  pub put_keeps :
      (port value : ℕ) (d : M.Device)
      → Quiet d
      → ((port == 0x0B) && (value == 0x4A)) ≡ false
      → Quiet (M.outb port value d).0 × (medium (M.outb port value d).0 ≡ medium d)
  pub get_keeps :
      (port : ℕ) (d : M.Device)
      → Quiet d
      → Quiet (M.inb port d).0 × (medium (M.inb port d).0 ≡ medium d)
  pub wait_keeps : (d : M.Device) → Quiet d → Quiet (M.halt d).0 × (medium (M.halt d).0 ≡ medium d)
  -- A read of sectors of one track that ends normally has put them into the buffer.
  pub read_gives :
      (c h s n : ℕ) {results : List ℕ} {d d' : M.Device}
      → Quiet d
      → OnDisk (c, h, s)
      → 1 ≤ n
      → s + n ≤ 19
      → Exchange M (read_bytes c h s n) results d d'
      → IsNormal results
      → (k : ℕ) → k < n * 512
      → M.dma_buffer d' k ≡ medium d (place (c, h, s) + k / 512) (k % 512)
  -- A write of a sector that ends normally has put the buffer into it, and the transfer is over.
  pub write_puts :
      (c h s : ℕ) {results : List ℕ} {d d' : M.Device}
      → OnDisk (c, h, s)
      → Exchange M (write_bytes c h s) results d d'
      → IsNormal results
      → Quiet d'
        × ((l j : ℕ)
            → j < 512
            → medium d' l j ≡ (if l == place (c, h, s) then M.dma_buffer d j else medium d l j))
  -- The buffer is memory of the program.
  pub buffer_set : (m : Mem) (d : M.Device) → M.dma_buffer (M.set_dma_buffer m d) ≡ m
  pub set_keeps :
      (m : Mem) (d : M.Device)
      → Quiet d
      → Quiet (M.set_dma_buffer m d) × (medium (M.set_dma_buffer m d) ≡ medium d)
