-- ===== src/Numbers/Random.antt =====
-- The generator of src/stdlib.c.
use sant_os.Prelude.{ℕ, zero, suc, ◌+◌, ◌*◌, ◌%◌, ◌^◌, ◌<◌, ◌≡◌, arith, u64}
use sant_os.Numbers.{rand}

-- The seed after `n` calls.
unfoldable pub seed_after : ℕ → ℕ → ℕ
seed_after zero s = s
seed_after (suc n) s = seed_after n (rand s).0

rand_low :
    (s t : ℕ)
    → s % 2 ^ 31 ≡ t % 2 ^ 31
    → ((rand s).0 % 2 ^ 31 ≡ (rand t).0 % 2 ^ 31) × ((rand s).1 ≡ (rand t).1)
unfolding rand
rand_low s t h =
    let seeds : u64 (s * 1103515245 + 12345) % 2 ^ 31 ≡ u64 (t * 1103515245 + 12345) % 2 ^ 31 =
      omega arith in
    (seeds, omega (arith, seeds))

rand_bound : (s : ℕ) → (rand s).1 < 32768
unfolding rand
rand_bound s = omega arith

-- The numbers that `rand` returns depend on the low 31 bits of the seed alone, however often it
-- has been called before, though the seed has 64 bits. Each is below 32768.
pub rand_low_bits :
    (n s t : ℕ)
    → s % 2 ^ 31 ≡ t % 2 ^ 31
    → ((rand (seed_after n s)).1 ≡ (rand (seed_after n t)).1) × ((rand (seed_after n s)).1 < 32768)
unfolding seed_after
rand_low_bits zero s t h = ((rand_low s t h).1, rand_bound s)
rand_low_bits (suc n) s t h = rand_low_bits n (rand s).0 (rand t).0 (rand_low s t h).0
