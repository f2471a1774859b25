-- ===== src/Timer/Tests.antt =====
-- Tests of the model of src/timer.c, and the theorems at concrete inputs.
use sant_os.Prelude.{ℕ, ◌+◌, ◌*◌, Bool, true, false, some, List, [], ◌∷◌, ◌≡◌, refl, arith}
use sant_os.Timer.{
  Timer, timer_get_ticks, timer_init, pic_init, outb, wait_until, timer_wait, sleep_ms,
}
use sant_os.Timer.Waiting.{Waited, timer_wait-Waited, sleep_ms-Waited, timer_init_divisor}

abbrev at_1000_hz : Timer
at_1000_hz = record { timer_ticks = 7; timer_frequency = 1000; ports = [] }

-- Two ticks, with a key in between.
abbrev two_ticks : List Bool
two_ticks = true ∷ false ∷ true ∷ false ∷ []

-- 4,294,968 milliseconds at 1000 Hz are over at once.
too_long : sleep_ms 4294968 [] at_1000_hz ≡ some (at_1000_hz, [])
unfolding sleep_ms timer_wait wait_until
too_long = refl

started : (t : Timer) × (timer_init 1000 at_1000_hz ≡ some t) × (timer_get_ticks t ≡ 7)
unfolding timer_init pic_init outb timer_get_ticks
started = (_, refl, refl)

timer_wait-Waited_example :
    (r : Timer × List Bool) × (timer_wait 2 two_ticks at_1000_hz ≡ some r)
    × Waited 2 two_ticks at_1000_hz r
timer_wait-Waited_example = timer_wait-Waited 2 two_ticks at_1000_hz (omega arith) (omega arith)

sleep_ms-Waited_example :
    (r : Timer × List Bool) × (sleep_ms 2 two_ticks at_1000_hz ≡ some r)
    × Waited 2 two_ticks at_1000_hz r
sleep_ms-Waited_example =
    sleep_ms-Waited 2 two_ticks at_1000_hz (omega arith) (omega arith) (omega arith) (omega arith)

timer_init_divisor_case :
    (low high : ℕ) × (low + high * 256 ≡ 1193)
    × (timer_init 1000 at_1000_hz
        ≡ some (
            pic_init (record at_1000_hz {
              timer_frequency = 1000;
              ports = (0x40, high) ∷ (0x40, low) ∷ (0x43, 0x36) ∷ [];
            })))
timer_init_divisor_case = timer_init_divisor 1000 at_1000_hz (omega arith)
