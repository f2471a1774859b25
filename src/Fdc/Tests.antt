-- ===== src/Fdc/Tests.antt =====
-- Tests of the model of src/fdc.c over a controller that answers at once, and the theorems at
-- concrete inputs.
use sant_os.Prelude.{
  ℕ, ◌+◌, ◌*◌, ◌/◌, ◌%◌, Mem, true, false, some, List, [], ◌∷◌, if◌then◌else◌, ◌==◌, ◌≡◌, refl,
  arith, ◌&&◌, get_or,
}
use sant_os.Fdc.{
  Machine, Driver, lba_to_chs, fdc_irq_handler, outb, inb, halt, clear_irq, wait_irq, fdc_wait_irq,
  wait_ready, fdc_wait_ready, fdc_write_byte, fdc_read_byte, dma_setup_read, dma_setup_write,
  fdc_motor_on,
}
use sant_os.Fdc.Commands.{
  sense_interrupt, sense_drives, fdc_reset, at_track_0, fdc_recalibrate, fdc_detect, fdc_init,
}
use sant_os.Fdc.Transfer.{fdc_read_sectors}
use sant_os.Fdc.Geometry.{OnDisk, place, place-lba_to_chs, lba_to_chs-place}
use sant_os.Fdc.Dma.{Programs, dma_setup-Programs}
use sant_os.Fdc.Reading.{Returns, fdc_read_sectors-Returns}
use sant_os.Fdc.Talks.{Talks}

-- A controller with its medium. It keeps the bytes that it is sent, the last first, and carries out
-- a command at the byte 0xFF, which is the last one of a transfer; a write needs the mode of the
-- channel, and ends it.
record Device : Type 0 where
  sent : List ℕ
  mode : ℕ
  sectors : ℕ → Mem
  channel : Mem

abbrev write_sector : ℕ → Device → Device
write_sector lba d = record d {
  sectors = λ l j. if l == lba then d.channel j else d.sectors l j;
  mode = 0;
}

abbrev move_sectors : ℕ → ℕ → Device → Device
move_sectors command lba d =
    if command == 0x46
    then record d { channel = λ k. d.sectors (lba + k / 512) (k % 512) }
    else if (command == 0x45) && (d.mode == 0x4A)
    then write_sector lba d
    else d

abbrev carry_out : Device → Device
carry_out d =
    move_sectors (get_or d.sent 7 0)
      (place (get_or d.sent 5 0, get_or d.sent 4 0, get_or d.sent 3 0)) d

unfoldable put_byte : ℕ → ℕ → Device → Device
put_byte port value d =
    if port == 0x0B
    then record d { mode = value }
    else if port == 0x3F5
    then (if value == 0xFF then carry_out d else record d { sent = value ∷ d.sent })
    else d

abbrev drive : Machine
drive = record {
  Device = Device;
  outb = λ port value d. (put_byte port value d, false);
  inb = λ port d. (d, if port == 0x3F4 then 0x80 else 0, false);
  halt = λ d. (d, true);
  dma_buffer = λ d. d.channel;
  set_dma_buffer = λ m d. record d { channel = m };
}

abbrev medium : Device → ℕ → Mem
medium d = d.sectors

abbrev Quiet : Device → Type 0
Quiet d = (d.mode == 0x4A) ≡ false

unfoldable put_all : List (ℕ × ℕ) → Device → Device
put_all [] d = d
put_all ((port, value) ∷ out) d = put_all out (put_byte port value d)

abbrev with_sent : List ℕ → Device → Device
with_sent bytes d = record d { sent = bytes }

-- A disk whose sectors hold their own numbers.
abbrev at_rest : Driver drive
at_rest = record {
  fdc_irq_received = false;
  device = record { sent = []; mode = 0; sectors = λ l j. l; channel = λ k. 0 };
  ports = [];
}

empty_buffer : Mem
empty_buffer k = 0

started : (fdc_init drive at_rest).1 ≡ some tt
unfolding put_byte fdc_init fdc_reset sense_drives fdc_recalibrate at_track_0 fdc_motor_on clear_irq
    fdc_write_byte fdc_wait_ready wait_ready fdc_wait_irq wait_irq inb outb halt fdc_irq_handler
    sense_interrupt fdc_read_byte
started = refl

detected : (fdc_detect drive at_rest).1 ≡ some true
unfolding fdc_detect inb fdc_irq_handler
detected = refl

place-lba_to_chs_case : OnDisk (lba_to_chs 2879) × (place (lba_to_chs 2879) ≡ 2879)
place-lba_to_chs_case = place-lba_to_chs 2879 (omega arith)

lba_to_chs-place_case : lba_to_chs (place (79, 1, 18)) ≡ (79, 1, 18)
lba_to_chs-place_case =
    lba_to_chs-place 79 1 18 (omega arith, omega arith, omega arith, omega arith)

dma_setup-Programs_case :
    Programs 0x46 (18 * 512) [] (dma_setup_read drive 18 at_rest).0.ports
    × Programs 0x4A (18 * 512) [] (dma_setup_write drive 18 at_rest).0.ports
dma_setup-Programs_case = dma_setup-Programs drive 18 at_rest (omega arith) (omega arith)

fdc_read_sectors-Returns_example :
    Returns drive (fdc_read_sectors drive 41 17 40 empty_buffer at_rest)
fdc_read_sectors-Returns_example =
    fdc_read_sectors-Returns drive 41 17 40 empty_buffer at_rest (omega arith) (omega arith)
