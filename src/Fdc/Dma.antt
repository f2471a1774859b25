-- ===== src/Fdc/Dma.antt =====
-- What src/fdc.c programs the DMA channel to transfer.
use sant_os.Prelude.{ℕ, ◌+◌, ◌-◌, ◌*◌, ◌/◌, ◌%◌, ◌^◌, ◌<◌, ◌≤◌, ◌≡◌, refl, arith, List, ◌∷◌}
use sant_os.Prelude.Bits.{and_ones}
use sant_os.Fdc.{
  Machine, Driver, dma_count, dma_setup_read, dma_setup_write, program_channel, outb,
  fdc_irq_handler,
}

-- The bytes that a channel is programmed with, the last first: the mode, the buffer at `page` and
-- `address`, and `bytes` bytes.
abbrev pub Programs : ℕ → ℕ → List (ℕ × ℕ) → List (ℕ × ℕ) → Type 0
Programs mode bytes before after =
    (low : ℕ) × (high : ℕ) × (low + high * 256 + 1 ≡ bytes)
    × (low < 256)
    × (high < 256)
    × (after
        ≡ (0x0A, 0x02)
          ∷ (0x05, high)
          ∷ (0x05, low)
          ∷ (0x81, 0x02)
          ∷ (0x04, 0x00)
          ∷ (0x04, 0x00)
          ∷ (0x0B, mode)
          ∷ (0x0C, 0xFF)
          ∷ (0x0A, 0x06)
          ∷ before)

module _ (M : Machine) where
  programmed :
      (mode sectors : ℕ) (f : Driver M)
      → 1 ≤ sectors
      → sectors ≤ 128
      → Programs mode (sectors * 512) f.ports (program_channel M mode (dma_count sectors) f).0.ports
  unfolding program_channel dma_count outb fdc_irq_handler
  programmed mode sectors f lo hi =
      let count = (sectors * 512 + 2 ^ 16 - 1) % 2 ^ 16 in
      let low = and_ones 8 count in
      let high = and_ones 8 (count / 2 ^ 8) in
      let less : count ≡ sectors * 512 - 1 = omega arith in
      let high' : count / 2 ^ 8 % 2 ^ 8 % 2 ^ 8 ≡ count / 2 ^ 8 = omega arith in
      let low' : count % 2 ^ 8 % 2 ^ 8 ≡ count % 2 ^ 8 = omega arith in
      (
        count % 2 ^ 8,
        count / 2 ^ 8,
        omega (arith, less),
        omega arith,
        omega arith,
        rw (low, high, high', low') refl,
      )

  -- For 1 to 128 sectors, both setups program the channel to transfer exactly as many bytes as the
  -- sectors have, at 0x20000, with the mode that a read and a write need.
  pub dma_setup-Programs :
      (sectors : ℕ) (f : Driver M)
      → 1 ≤ sectors
      → sectors ≤ 128
      → Programs 0x46 (sectors * 512) f.ports (dma_setup_read M sectors f).0.ports
        × Programs 0x4A (sectors * 512) f.ports (dma_setup_write M sectors f).0.ports
  unfolding dma_setup_read dma_setup_write
  dma_setup-Programs sectors f lo hi =
      (programmed 0x46 sectors f lo hi, programmed 0x4A sectors f lo hi)
