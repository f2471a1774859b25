-- ===== src/Fdc/Reading.antt =====
-- `fdc_read_sectors` of src/fdc.c: that it ends, and what it leaves in the buffer.
use sant_os.Prelude.{
  ℕ, zero, suc, ◌+◌, ◌-◌, ◌*◌, ◌<◌, ◌≤◌, Mem, Bool, true, false, Option, none, some, List, ◌∷◌, ltb,
  ◌≡◌, refl, arith, u8, u32, Bool-cases, Option-cases, inl, inr, ◌∙◌,
}
use sant_os.Fat12.Data.{put_bytes}
use sant_os.Fdc.{Machine, Driver, outb, fdc_irq_handler, fdc_motor_on, fdc_motor_off, lba_to_chs}
use sant_os.Fdc.Transfer.{run_length, read_run, read_loop, fdc_read_sectors}
use sant_os.Fdc.Geometry.{sector_bounds}

-- A transfer has a sector, has no more than are left and stays on its track.
pub run_length_lem :
    (s left : ℕ)
    → 1 ≤ s
    → s ≤ 18
    → 1 ≤ left
    → (1 ≤ run_length s left) × (run_length s left ≤ left) × (s + run_length s left ≤ 19)
unfolding run_length
run_length_lem s left lo hi some_left =
    let n : u8 (18 + 1 - s) ≡ 19 - s = omega arith in
    rw n (ground arith, ground arith, ground arith)

module _ (M : Machine) where
  abbrev Result : Type 0
  Result = Driver M × Mem × Bool

  -- A result that the loop comes to, behind which the motor is off.
  pub record Returns (transfer : Option Result) : Type 0 where
    pub result : Result
    pub runs : transfer ≡ some result
    pub before : List (ℕ × ℕ)
    pub motor_off : result.0.ports ≡ (0x3F2, 0x0C) ∷ before

  -- The three ways of a round.
  module _ (fuel lba count done : ℕ) (buffer : Mem) (f : Driver M) where
    abbrev pub chs : ℕ × ℕ × ℕ
    chs = lba_to_chs (u32 (lba + done))

    abbrev pub len : ℕ
    len = run_length chs.2 (count - done)

    abbrev pub transfer : Driver M × Option (Unit {0})
    transfer = read_run M chs.0 chs.1 chs.2 len f

    abbrev pub filled : Mem
    filled = put_bytes buffer (done * 512) (len * 512) (M.dma_buffer transfer.0.device)

    pub read_loop_done :
        ltb done count ≡ false
        → read_loop M (suc fuel) lba count done buffer f
          ≡ some ((fdc_motor_off M f).0, buffer, true)
    unfolding read_loop
    read_loop_done last = rw (last, read_loop) refl

    pub read_loop_failed :
        ltb done count ≡ true
        → transfer.1 ≡ none
        → read_loop M (suc fuel) lba count done buffer f
          ≡ some ((fdc_motor_off M transfer.0).0, buffer, false)
    unfolding read_loop
    read_loop_failed more failed = rw (more, failed, read_loop) refl

    pub read_loop_next :
        {u : Unit {0}}
        → ltb done count ≡ true
        → transfer.1 ≡ some u
        → read_loop M (suc fuel) lba count done buffer f
          ≡ read_loop M fuel lba count (u8 (done + len)) filled transfer.0
    unfolding read_loop
    read_loop_next more ran = rw (more, ran, read_loop) refl

  motor_off_last : (f : Driver M) → (fdc_motor_off M f).0.ports ≡ (0x3F2, 0x0C) ∷ f.ports
  unfolding fdc_motor_off outb fdc_irq_handler
  motor_off_last f = refl

  read_loop-Returns :
      (fuel lba count done : ℕ) (buffer : Mem) (f : Driver M)
      → count < 256
      → done ≤ count
      → count - done < fuel
      → Returns (read_loop M fuel lba count done buffer f)
  read_loop-Returns zero lba count done buffer f fits inside enough = absurd (omega arith)
  read_loop-Returns (suc fuel) lba count done buffer f fits inside enough =
      let place = chs fuel lba count done buffer f in
      let size = len fuel lba count done buffer f in
      let out = transfer fuel lba count done buffer f in
      let (lo, hi) = sector_bounds (u32 (lba + done)) in
      elim (Bool-cases (ltb done count)) [
        | inr last ↦ record {
          result = ((fdc_motor_off M f).0, buffer, true);
          runs = read_loop_done fuel lba count done buffer f last;
          before = f.ports;
          motor_off = motor_off_last f;
        }
        | inl more ↦ elim (Option-cases out.1) [
          | inl failed ↦ record {
            result = ((fdc_motor_off M out.0).0, buffer, false);
            runs = read_loop_failed fuel lba count done buffer f more failed;
            before = out.0.ports;
            motor_off = motor_off_last out.0;
          }
          | inr (u, ran) ↦
              let (pos, few, on) = run_length_lem place.2 (count - done) lo hi (ground arith) in
              let next : u8 (done + size) ≡ done + size = omega arith in
              let mem = filled fuel lba count done buffer f in
              let rest =
                read_loop-Returns fuel lba count (u8 (done + size)) mem out.0 fits
                  (omega (arith, next)) (omega (arith, next)) in
              record {
                result = rest.result;
                runs = read_loop_next fuel lba count done buffer f more ran ∙ rest.runs;
                before = rest.before;
                motor_off = rest.motor_off;
              }
        ]
      ]

  -- Whatever the controller does, `fdc_read_sectors` returns, with fuel for one round more than
  -- there are sectors, and the last thing it does is to switch the motor off.
  pub fdc_read_sectors-Returns :
      (fuel lba count : ℕ) (buffer : Mem) (f : Driver M)
      → count < 256
      → count < fuel
      → Returns (fdc_read_sectors M fuel lba count buffer f)
  unfolding fdc_read_sectors
  fdc_read_sectors-Returns fuel lba count buffer f fits enough =
      read_loop-Returns fuel lba count 0 buffer (fdc_motor_on M f).0 fits (omega arith)
        (omega arith)
