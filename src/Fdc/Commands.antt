-- ===== src/Fdc/Commands.antt =====
-- The commands of src/fdc.c: reset, recalibrate and seek, and the start of the driver.
use sant_os.Prelude.{
  ℕ, zero, suc, ◌*◌, ◌^◌, Bool, true, false, ◌||◌, Option, none, some, ◌==◌, if◌then◌else◌, bit_and,
  bit_or,
}
use sant_os.Fdc.{
  Machine, Op, return, ◌>>=◌, ◌>>◌, Driver, outb, inb, clear_irq, fdc_wait_irq, fdc_write_byte,
  fdc_read_byte, fdc_motor_on,
}

module _ (M : Machine) where
  -- SENSE INTERRUPT and its two result bytes, of which the second is the cylinder.
  unfoldable pub sense_interrupt : Op (Driver M) ℕ
  sense_interrupt = do fdc_write_byte M 0x08; st0 ← fdc_read_byte M; fdc_read_byte M

  unfoldable pub sense_drives : ℕ → Op (Driver M) (Unit {0})
  sense_drives zero f = (f, some tt)
  sense_drives (suc left) f = (sense_interrupt >> sense_drives left) f

  unfoldable pub fdc_reset : Op (Driver M) (Unit {0})
  fdc_reset = do
    outb M 0x3F2 0
    clear_irq M
    outb M 0x3F2 0x0C
    fdc_wait_irq M
    sense_drives 4
    outb M 0x3F7 0
    fdc_write_byte M 0x03
    fdc_write_byte M 0xDF
    fdc_write_byte M 0x02

  unfoldable pub at_track_0 : ℕ → Op (Driver M) (Unit {0})
  at_track_0 cyl f = if cyl == 0 then (f, some tt) else (f, none)

  unfoldable pub fdc_recalibrate : Op (Driver M) (Unit {0})
  fdc_recalibrate = do
    fdc_motor_on M
    clear_irq M
    fdc_write_byte M 0x07
    fdc_write_byte M 0
    fdc_wait_irq M
    cyl ← sense_interrupt
    at_track_0 cyl

  unfoldable pub fdc_seek : ℕ → ℕ → Op (Driver M) (Unit {0})
  fdc_seek cylinder head = do
    clear_irq M
    fdc_write_byte M 0x0F
    fdc_write_byte M (bit_or (head * 2 ^ 2) 0)
    fdc_write_byte M cylinder
    fdc_wait_irq M
    cyl ← sense_interrupt
    return tt

  -- Whether a controller answers.
  unfoldable pub fdc_detect : Driver M → Driver M × Option Bool
  fdc_detect = do msr ← inb M 0x3F4; return (if (msr == 0xFF) || (msr == 0x00) then false else true)

  -- The mask of the interrupt controller loses the bit of IRQ 6. The gate of the handler is part
  -- of the machine.
  unfoldable pub fdc_init : Op (Driver M) (Unit {0})
  fdc_init = do
    pic_mask ← inb M 0x21
    outb M 0x21 (bit_and pic_mask 0xBF)
    fdc_reset
    fdc_recalibrate
