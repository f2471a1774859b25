-- ===== src/Timer.antt =====
-- The programmable interval timer, src/timer.c. The interrupts are a list, of which each entry is
-- one `hlt` that has returned: whether it was the timer's interrupt that woke the processor.
pub mod Waiting
mod Tests
use sant_os.Prelude.{
  ℕ, ◌+◌, ◌*◌, ◌/◌, ◌^◌, Bool, true, false, Option, none, some, List, [], ◌∷◌, ◌++◌, ltb, ◌==◌,
  if◌then◌else◌, bit_and, u8, u32, u64,
}

-- The static variables, and the bytes that have been put out, the last one first.
pub record Timer : Type 0 where
  pub timer_ticks : ℕ
  pub timer_frequency : ℕ
  pub ports : List (ℕ × ℕ)

unfoldable pub timer_handler : Timer → Timer
timer_handler t = record t { timer_ticks = u64 (t.timer_ticks + 1) }

unfoldable pub outb : ℕ → ℕ → Timer → Timer
outb port value t = record t { ports = (port, value) ∷ t.ports }

unfoldable pub pic_init : Timer → Timer
pic_init t = outb 0xA1 0xFF (
    outb 0x21 0xFE (
      outb 0xA1 0x01 (
        outb 0x21 0x01 (
          outb 0xA1 0x02 (
            outb 0x21 0x04
              (outb 0xA1 0x28 (outb 0x21 0x20 (outb 0xA0 0x11 (outb 0x20 0x11 t)))))))))

-- A frequency of 0 is a division by zero, here `none`. The gate of the handler and the instruction
-- that allows interrupts are not part of the state.
unfoldable pub timer_init : ℕ → Timer → Option Timer
timer_init frequency t =
    let divisor = 1193182 / frequency in
    let t0 : Timer = record t { timer_frequency = frequency } in
    let t1 = outb 0x43 0x36 t0 in
    let t2 = outb 0x40 (u8 (bit_and divisor 0xFF)) t1 in
    let t3 = outb 0x40 (u8 (bit_and (divisor / 2 ^ 8) 0xFF)) t2 in
    if frequency == 0 then none else some (pic_init t3)

unfoldable pub timer_get_ticks : Timer → ℕ
timer_get_ticks t = t.timer_ticks

-- The loop of `timer_wait`: the timer, and the interrupts that are left. `none` is a processor that
-- waits for a further interrupt.
unfoldable pub wait_until : ℕ → List Bool → Timer → Option (Timer × List Bool)
wait_until end_tick [] t = if ltb t.timer_ticks end_tick then none else some (t, [])
wait_until end_tick (timer ∷ interrupts) t =
    let rest = wait_until end_tick interrupts (if timer then timer_handler t else t) in
    if ltb t.timer_ticks end_tick then rest else some (t, timer ∷ interrupts)

unfoldable pub timer_wait : ℕ → List Bool → Timer → Option (Timer × List Bool)
timer_wait ticks interrupts t = wait_until (u64 (t.timer_ticks + ticks)) interrupts t

-- The product is a word of 32 bits.
unfoldable pub sleep_ms : ℕ → List Bool → Timer → Option (Timer × List Bool)
sleep_ms ms interrupts t =
    if t.timer_frequency == 0
    then some (t, interrupts)
    else timer_wait (u32 (ms * t.timer_frequency) / 1000) interrupts t
