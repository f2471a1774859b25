-- ===== src/Fdc/Transfer.antt =====
-- `fdc_read_sectors` and `fdc_write_sectors` of src/fdc.c. Their loops are on fuel, and an outer
-- `none` is a loop that has used it up.
use sant_os.Prelude.{
  ℕ, zero, suc, ◌+◌, ◌-◌, ◌*◌, ◌^◌, Mem, Bool, true, false, Option, none, some, List, [], ◌∷◌, ltb,
  if◌then◌else◌, bit_and, bit_or, nonzero, u8, u32,
}
use mathlib.Core.Option.{map}
use sant_os.Fdc.{
  Machine, Op, return, ◌>>=◌, ◌>>◌, Driver, clear_irq, fdc_wait_irq, fdc_write_byte, fdc_read_byte,
  fdc_motor_on, fdc_motor_off, dma_setup_read, dma_setup_write, lba_to_chs,
}
use sant_os.Fdc.Commands.{fdc_seek}
use sant_os.Fat12.Data.{put_bytes}

-- The sectors of a transfer: to the end of the track, but no more than are left.
unfoldable pub run_length : ℕ → ℕ → ℕ
run_length s left = if ltb left (u8 (18 + 1 - s)) then left else u8 (18 + 1 - s)

module _ (M : Machine) where
  -- `fdc_read_byte(&st0) | ... `: every byte is asked for, whatever became of the ones before it.
  unfoldable pub read_results : ℕ → Op (Driver M) (List ℕ)
  read_results zero f = (f, some [])
  read_results (suc left) f =
      let (f', byte) = fdc_read_byte M f in
      let (f'', rest) = read_results left f' in
      elim byte [ none ↦ (f'', none) | some b ↦ (f'', map (λ bs. b ∷ bs) rest) ]

  unfoldable pub check_status : List ℕ → Op (Driver M) (Unit {0})
  check_status [] f = (f, none)
  check_status (st0 ∷ results) f = if nonzero (bit_and st0 0xC0) then (f, none) else (f, some tt)

  -- The transfer of `n` sectors of the track into the buffer of the channel.
  unfoldable pub read_command : ℕ → ℕ → ℕ → ℕ → Op (Driver M) (Unit {0})
  read_command c h s n = do
    dma_setup_read M n
    clear_irq M
    fdc_write_byte M (bit_or 0x06 0x40)
    fdc_write_byte M (h * 2 ^ 2)
    fdc_write_byte M c
    fdc_write_byte M h
    fdc_write_byte M s
    fdc_write_byte M 2
    fdc_write_byte M (s + n - 1)
    fdc_write_byte M 0x1B
    fdc_write_byte M 0xFF
    fdc_wait_irq M
    results ← read_results 7
    check_status results

  unfoldable pub read_run : ℕ → ℕ → ℕ → ℕ → Op (Driver M) (Unit {0})
  read_run c h s n = fdc_seek M c h >> read_command c h s n

  unfoldable pub read_loop : ℕ → ℕ → ℕ → ℕ → Mem → Driver M → Option (Driver M × Mem × Bool)
  read_loop zero lba count done buffer f = none
  read_loop (suc fuel) lba count done buffer f =
      let (c, h, s) = lba_to_chs (u32 (lba + done)) in
      let n = run_length s (count - done) in
      let (f', run) = read_run c h s n f in
      let buffer' = put_bytes buffer (done * 512) (n * 512) (M.dma_buffer f'.device) in
      elim (ltb done count) [
        | false ↦ some ((fdc_motor_off M f).0, buffer, true)
        | true ↦ elim run [
          | none ↦ some ((fdc_motor_off M f').0, buffer, false)
          | some _ ↦ read_loop fuel lba count (u8 (done + n)) buffer' f'
        ]
      ]

  unfoldable pub fdc_read_sectors : ℕ → ℕ → ℕ → Mem → Driver M → Option (Driver M × Mem × Bool)
  fdc_read_sectors fuel lba count buffer f = read_loop fuel lba count 0 buffer (fdc_motor_on M f).0

  -- Each of these errors returns at once, with the motor on.
  unfoldable pub write_parameters : ℕ → ℕ → ℕ → Op (Driver M) (Unit {0})
  write_parameters cylinder head sector = do
    fdc_write_byte M (bit_or (head * 2 ^ 2) 0)
    fdc_write_byte M cylinder
    fdc_write_byte M head
    fdc_write_byte M sector
    fdc_write_byte M 2
    fdc_write_byte M 18
    fdc_write_byte M 0x1B
    fdc_write_byte M 0xFF

  unfoldable pub write_results : Op (Driver M) (List ℕ)
  write_results = do
    st0 ← fdc_read_byte M
    st1 ← fdc_read_byte M
    st2 ← fdc_read_byte M
    cyl ← fdc_read_byte M
    h ← fdc_read_byte M
    sec ← fdc_read_byte M
    bps ← fdc_read_byte M
    return (st0 ∷ st1 ∷ st2 ∷ cyl ∷ h ∷ sec ∷ bps ∷ [])

  -- An operation behind whose failure the motor is switched off.
  unfoldable pub or_motor_off : {A : Type 0} → Op (Driver M) A → Op (Driver M) A
  or_motor_off m f = elim (m f).1 [
    | none ↦ ((fdc_motor_off M (m f).0).0, none)
    | some a ↦ ((m f).0, some a)
  ]

  unfoldable pub fill_buffer : Mem → ℕ → Op (Driver M) (Unit {0})
  fill_buffer buffer i f =
      let sector = put_bytes (M.dma_buffer f.device) 0 512 (λ j. buffer (i * 512 + j)) in
      (record f { device = M.set_dma_buffer sector f.device }, some tt)

  -- The transfer of the buffer of the channel to a sector.
  unfoldable pub write_command : ℕ × ℕ × ℕ → Op (Driver M) (Unit {0})
  write_command (c, h, s) = do
    dma_setup_write M 1
    clear_irq M
    or_motor_off (fdc_write_byte M (bit_or 0x05 0x40))
    write_parameters c h s
    or_motor_off (fdc_wait_irq M)
    results ← write_results
    or_motor_off (check_status results)

  unfoldable pub write_round : ℕ → ℕ → Mem → Op (Driver M) (Unit {0})
  write_round lba i buffer = do
    let chs = lba_to_chs (u32 (lba + i))
    fdc_motor_on M
    or_motor_off (fdc_seek M chs.0 chs.1)
    fill_buffer buffer i
    write_command chs

  -- `for (uint8_t i = 0; i < count; i++)`, with `left` sectors left from `i` on.
  unfoldable pub write_loop : ℕ → ℕ → ℕ → Mem → Op (Driver M) (Unit {0})
  write_loop lba zero i buffer f = fdc_motor_off M f
  write_loop lba (suc left) i buffer f =
      (write_round lba i buffer >> write_loop lba left (i + 1) buffer) f

  unfoldable pub fdc_write_sectors : ℕ → ℕ → Mem → Op (Driver M) (Unit {0})
  fdc_write_sectors lba count buffer = write_loop lba count 0 buffer
