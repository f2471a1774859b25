-- ===== src/Timer/Waiting.antt =====
-- How long `timer_wait` and `sleep_ms` of src/timer.c wait, and what `timer_init` programs.
use sant_os.Prelude.{
  ℕ, zero, suc, ◌+◌, ◌*◌, ◌/◌, ◌%◌, ◌^◌, ◌<◌, ◌≤◌, Bool, true, false, some, List, [], ◌∷◌, ◌++◌,
  ltb, ◌==◌, bit_and, u32, u64, ◌≡◌, refl, arith, ap,
}
use native.Mathlib.Nat.{div-lt_iff_lt-mul}
use sant_os.Prelude.Bits.{and_ones}
use sant_os.Timer.{
  Timer, timer_handler, wait_until, timer_wait, sleep_ms, timer_init, outb, pic_init,
}

-- How many of the interrupts are the timer's.
abbrev pub ticks_in : List Bool → ℕ
ticks_in [] = 0
ticks_in (true ∷ interrupts) = suc (ticks_in interrupts)
ticks_in (false ∷ interrupts) = ticks_in interrupts

-- A wait that has ended, with the interrupts that are left. Exactly so many of those that it has
-- taken are the timer's.
pub record Waited (ticks : ℕ) (interrupts : List Bool) (t : Timer) (r : Timer × List Bool)
    : Type 0 where
  pub taken : List Bool
  pub all : interrupts ≡ taken ++ r.1
  pub counted : ticks_in taken ≡ ticks
  pub clock : r.0.timer_ticks ≡ t.timer_ticks + ticks

abbrev Ends : ℕ → ℕ → List Bool → Timer → Type 0
Ends end_tick ticks interrupts t =
    (r : Timer × List Bool) × (wait_until end_tick interrupts t ≡ some r)
    × Waited ticks interrupts t r

now-Ends :
    (end_tick : ℕ) (interrupts : List Bool) (t : Timer)
    → end_tick ≡ t.timer_ticks
    → Ends end_tick 0 interrupts t
unfolding wait_until
now-Ends end_tick [] t h =
    let done : ltb t.timer_ticks end_tick ≡ false = ground arith in
    ((t, []), rw done refl, record { taken = []; all = refl; counted = refl; clock = omega arith })
now-Ends end_tick (timer ∷ interrupts) t h =
    let done : ltb t.timer_ticks end_tick ≡ false = ground arith in
    (
      (t, timer ∷ interrupts),
      rw done refl,
      record { taken = []; all = refl; counted = refl; clock = omega arith },
    )

wait_until-Ends :
    (interrupts : List Bool) (end_tick ticks : ℕ) (t : Timer)
    → end_tick < 2 ^ 64
    → end_tick ≡ t.timer_ticks + ticks
    → ticks ≤ ticks_in interrupts
    → Ends end_tick ticks interrupts t
unfolding wait_until timer_handler
wait_until-Ends interrupts end_tick zero t fits e enough =
    now-Ends end_tick interrupts t (omega (arith, e))
wait_until-Ends [] end_tick (suc ticks) t fits e enough = absurd (omega arith)
wait_until-Ends (false ∷ interrupts) end_tick (suc ticks) t fits e enough =
    let more : ltb t.timer_ticks end_tick ≡ true = ground (arith, e) in
    let (r, runs, waited) = wait_until-Ends interrupts end_tick (suc ticks) t fits e enough in
    (
      r,
      rw more runs,
      record {
        taken = false ∷ waited.taken;
        all = ap (λ is. false ∷ is) waited.all;
        counted = waited.counted;
        clock = waited.clock;
      },
    )
wait_until-Ends (true ∷ interrupts) end_tick (suc ticks) t fits e enough =
    let more : ltb t.timer_ticks end_tick ≡ true = ground (arith, e) in
    let next : (t.timer_ticks + 1) % 2 ^ 64 ≡ t.timer_ticks + 1 = omega (arith, e) in
    let (r, runs, waited) =
      wait_until-Ends interrupts end_tick ticks (timer_handler t) fits (omega (arith, e, next))
        (omega arith) in
    let clock = waited.clock in
    (
      r,
      rw more runs,
      record {
        taken = true ∷ waited.taken;
        all = ap (λ is. true ∷ is) waited.all;
        counted = ap suc waited.counted;
        clock = omega (arith, clock, next);
      },
    )

-- While the tick count does not reach 2 ^ 64, `timer_wait` returns once the timer has ticked as
-- often as it was asked to wait, whatever other interrupts come in between, and not earlier.
pub timer_wait-Waited :
    (ticks : ℕ) (interrupts : List Bool) (t : Timer)
    → t.timer_ticks + ticks < 2 ^ 64
    → ticks ≤ ticks_in interrupts
    → (r : Timer × List Bool) × (timer_wait ticks interrupts t ≡ some r)
      × Waited ticks interrupts t r
unfolding timer_wait
timer_wait-Waited ticks interrupts t fits enough =
    let no_wrap : u64 (t.timer_ticks + ticks) ≡ t.timer_ticks + ticks = omega arith in
    rw no_wrap (wait_until-Ends interrupts (t.timer_ticks + ticks) ticks t fits refl enough)

-- Once the timer has been started, `sleep_ms` returns after as many ticks of the timer as the time
-- has, if the product of the milliseconds and the frequency is a word of 32 bits.
pub sleep_ms-Waited :
    (ms : ℕ) (interrupts : List Bool) (t : Timer)
    → 0 < t.timer_frequency
    → ms * t.timer_frequency < 2 ^ 32
    → t.timer_ticks + ms * t.timer_frequency / 1000 < 2 ^ 64
    → ms * t.timer_frequency / 1000 ≤ ticks_in interrupts
    → (r : Timer × List Bool) × (sleep_ms ms interrupts t ≡ some r)
      × Waited (ms * t.timer_frequency / 1000) interrupts t r
unfolding sleep_ms
sleep_ms-Waited ms interrupts t started small fits enough =
    let running : (t.timer_frequency == 0) ≡ false = ground arith in
    let product = ms * t.timer_frequency in
    let word : u32 product ≡ product = omega (arith, small) in
    rw (running, word) (timer_wait-Waited (product / 1000) interrupts t fits enough)

-- At a frequency from 19 Hz on, the divisor that the timer is programmed with, low byte first, is
-- the base frequency divided by this frequency.
pub timer_init_divisor :
    (frequency : ℕ) (t : Timer)
    → 19 ≤ frequency
    → (low high : ℕ) × (low + high * 256 ≡ 1193182 / frequency)
      × (timer_init frequency t
          ≡ some (
              pic_init (record t {
                timer_frequency = frequency;
                ports = (0x40, high) ∷ (0x40, low) ∷ (0x43, 0x36) ∷ t.ports;
              })))
unfolding timer_init outb
timer_init_divisor frequency t h =
    let d = 1193182 / frequency in
    let small : d < 65536 =
      (div-lt_iff_lt-mul {k = frequency} {x = 1193182} {y = 65536} (omega arith)).1 (omega arith) in
    let low : bit_and d 0xFF % 2 ^ 8 ≡ d % 256 = omega (arith, and_ones 8 d) in
    let high : bit_and (d / 2 ^ 8) 0xFF % 2 ^ 8 ≡ d / 256 =
      omega (arith, small, and_ones 8 (d / 256)) in
    let runs : (frequency == 0) ≡ false = ground arith in
    (d % 256, d / 256, omega arith, rw (runs, low, high) refl)
