-- ===== src/Fdc.antt =====
-- The floppy driver, src/fdc.c, over the controller and the DMA channel that it programs. An
-- operation is a function of the state, with the return value -1 as `none`.
pub mod Geometry
pub mod Dma
pub mod Commands
pub mod Transfer
pub mod Reading
pub mod Protocol
pub mod Talks
pub mod Quiet
pub mod Contents
pub mod Written
mod Tests
use sant_os.Prelude.{
  ℕ, zero, suc, ◌+◌, ◌-◌, ◌*◌, ◌/◌, ◌%◌, ◌^◌, Mem, Bool, true, false, ◌||◌, ◌&&◌, not, Option, none,
  some, List, [], ◌∷◌, ◌==◌, ltb, leb, if◌then◌else◌, nonzero, bit_and, bit_or, u8, u16, u32,
}

-- The machine behind the ports. Each access tells whether the interrupt handler of the driver ran
-- in it, `halt` is the instruction that waits for an interrupt, and `dma_buffer` is the memory that
-- the channel transfers.
pub record Machine : Type 1 where
  pub Device : Type 0
  pub outb : ℕ → ℕ → Device → Device × Bool
  pub inb : ℕ → Device → Device × ℕ × Bool
  pub halt : Device → Device × Bool
  pub dma_buffer : Device → Mem
  pub set_dma_buffer : Mem → Device → Device

-- The driver's flag, the machine, and the bytes that have been put out, the last one first.
pub record Fdc (Device : Type 0) : Type 0 where
  pub fdc_irq_received : Bool
  pub device : Device
  pub ports : List (ℕ × ℕ)

-- An operation that may fail.
abbrev pub Op {ℓ κ} : Type ℓ → Type κ → Type (ℓ ⊔ κ)
Op S A = S → S × Option A

abbrev pub return {ℓ κ} : {S : Type ℓ} {A : Type κ} → A → Op S A
return a f = (f, some a)

infixl 5 ◌>>=◌ ◌>>◌
abbrev pub ◌>>=◌ {ℓ κ μ} : {S : Type ℓ} {A : Type κ} {B : Type μ} → Op S A → (A → Op S B) → Op S B
m >>= k = λ f. elim (m f).1 [ none ↦ ((m f).0, none) | some a ↦ k a (m f).0 ]

abbrev pub ◌>>◌ {ℓ κ μ} : {S : Type ℓ} {A : Type κ} {B : Type μ} → Op S A → Op S B → Op S B
m >> k = m >>= λ _. k

-- `lba_to_chs`: the cylinder, the head and the sector.
unfoldable pub lba_to_chs : ℕ → ℕ × ℕ × ℕ
lba_to_chs lba = (u8 (lba / (2 * 18)), u8 (lba / 18 % 2), u8 (lba % 18 + 1))

-- The length of a transfer less 1, as `uint16_t`; without a sector the subtraction wraps round.
unfoldable pub dma_count : ℕ → ℕ
dma_count sector_count = u16 (sector_count * 512 + 2 ^ 16 - 1)

module _ (M : Machine) where
  abbrev pub Driver : Type 0
  Driver = Fdc M.Device

  unfoldable pub fdc_irq_handler : Bool → Driver → Driver
  fdc_irq_handler ran f = record f { fdc_irq_received = ran || f.fdc_irq_received }

  unfoldable pub outb : ℕ → ℕ → Op Driver (Unit {0})
  outb port value f =
      let (d, ran) = M.outb port value f.device in
      (fdc_irq_handler ran (record f { device = d; ports = (port, value) ∷ f.ports }), some tt)

  unfoldable pub inb : ℕ → Op Driver ℕ
  inb port f =
      let (d, value, ran) = M.inb port f.device in
      (fdc_irq_handler ran (record f { device = d }), some value)

  unfoldable pub halt : Driver → Driver
  halt f = let (d, ran) = M.halt f.device in fdc_irq_handler ran (record f { device = d })

  unfoldable pub clear_irq : Op Driver (Unit {0})
  clear_irq f = (record f { fdc_irq_received = false }, some tt)

  -- The loop of `fdc_wait_irq`, of `timeout` rounds.
  unfoldable pub wait_irq : ℕ → Op Driver (Unit {0})
  wait_irq zero f = (f, none)
  wait_irq (suc timeout) f = elim f.fdc_irq_received [
    | true ↦ clear_irq f
    | false ↦ wait_irq timeout (halt f)
  ]

  unfoldable pub fdc_wait_irq : Op Driver (Unit {0})
  fdc_wait_irq = wait_irq 10000

  unfoldable pub wait_ready : ℕ → Op Driver (Unit {0})
  wait_ready zero f = (f, none)
  wait_ready (suc timeout) f =
      let (f', msr) = inb 0x3F4 f in
      elim msr [
        | none ↦ (f', none)
        | some status ↦ elim (nonzero (bit_and status 0x80)) [
          | true ↦ (f', some tt)
          | false ↦ wait_ready timeout f'
        ]
      ]

  unfoldable pub fdc_wait_ready : Op Driver (Unit {0})
  fdc_wait_ready = wait_ready 100000

  unfoldable pub fdc_write_byte : ℕ → Op Driver (Unit {0})
  fdc_write_byte byte = do fdc_wait_ready; outb 0x3F5 (u8 byte)

  -- `fdc_read_byte` has the same loop as `fdc_wait_ready`.
  unfoldable pub fdc_read_byte : Op Driver ℕ
  fdc_read_byte = do wait_ready 100000; inb 0x3F5

  unfoldable pub program_channel : ℕ → ℕ → Op Driver (Unit {0})
  program_channel mode count = do
    outb 0x0A 0x06
    outb 0x0C 0xFF
    outb 0x0B mode
    outb 0x04 (u8 (bit_and 0x20000 0xFF))
    outb 0x04 (u8 (bit_and (0x20000 / 2 ^ 8) 0xFF))
    outb 0x81 (u8 (bit_and (0x20000 / 2 ^ 16) 0xFF))
    outb 0x05 (u8 (bit_and count 0xFF))
    outb 0x05 (u8 (bit_and (count / 2 ^ 8) 0xFF))
    outb 0x0A 0x02

  unfoldable pub dma_setup_read : ℕ → Op Driver (Unit {0})
  dma_setup_read sector_count = program_channel 0x46 (dma_count sector_count)

  unfoldable pub dma_setup_write : ℕ → Op Driver (Unit {0})
  dma_setup_write sector_count = program_channel 0x4A (dma_count sector_count)

  unfoldable pub fdc_motor_on : Op Driver (Unit {0})
  fdc_motor_on = outb 0x3F2 0x1C

  unfoldable pub fdc_motor_off : Op Driver (Unit {0})
  fdc_motor_off = outb 0x3F2 0x0C
