-- ===== src/Fdc/Talks.antt =====
-- What src/fdc.c puts to the ports and gets from them where an operation succeeds.
use sant_os.Prelude.{
  ℕ, zero, suc, ◌+◌, ◌-◌, ◌*◌, ◌/◌, ◌%◌, ◌^◌, ◌≤◌, true, false, Option, some, List, [], ◌∷◌, ◌++◌,
  ◌==◌, ◌≡◌, refl, arith, length, nonzero, bit_and, bit_or, u8, Bool-cases, Option-cases, inl, inr,
  ap, sym, subst, ◌∙◌,
}
use mathlib.Core.Option.{some-injective}
use mathlib.Core.List.{append_assoc, append-nil}
use sant_os.Prelude.Bits.{and_ones, or-zero}
use sant_os.Fdc.{
  Machine, Op, return, ◌>>=◌, ◌>>◌, Driver, outb, inb, halt, fdc_irq_handler, clear_irq, wait_irq,
  fdc_wait_irq, wait_ready, fdc_wait_ready, fdc_write_byte, fdc_read_byte, program_channel,
  dma_count, dma_setup_write,
}
use sant_os.Fdc.Transfer.{
  check_status, write_parameters, write_results, or_motor_off, write_command,
}
use sant_os.Fdc.Geometry.{OnDisk}
use sant_os.Fdc.Protocol.{
  Exchange, done, polls, waits, puts, sends, receives, channel_bytes, write_bytes, IsNormal,
}

-- If a sequence succeeds, its first operation has, and the sequence is the rest from there.
pub >>=-some :
    {S A B : Type 0} (m : Op S A) (k : A → Op S B) (f : S) (b : B)
    → ((m >>= k) f).1 ≡ some b
    → (a : A) × ((m f).1 ≡ some a) × ((m >>= k) f ≡ k a (m f).0)
>>=-some m k f b h = elim (Option-cases (m f).1) [
  | inl failed ↦ absurd (let h' = rw (failed, ◌>>=◌) at h in ground arith)
  | inr (a, ran) ↦ (a, ran, rw (ran, ◌>>=◌) refl)
]

module _ (M : Machine) where
  Exchange-append :
      {out out' : List (ℕ × ℕ)} {back back' : List ℕ} {d d' d'' : M.Device}
      → Exchange M out back d d'
      → Exchange M out' back' d' d''
      → Exchange M (out ++ out') (back ++ back') d d''
  Exchange-append done e = e
  Exchange-append (polls x) e = polls (Exchange-append x e)
  Exchange-append (waits x) e = waits (Exchange-append x e)
  Exchange-append (puts port value other x) e = puts port value other (Exchange-append x e)
  Exchange-append (sends value ready x) e = sends value ready (Exchange-append x e)
  Exchange-append (receives ready x) e = receives ready (Exchange-append x e)

  -- An operation that, if it succeeds, has put out `out` and got answers of which `P` holds.
  pub record Talks {A : Type 0} (m : Op (Driver M) A) (out : List (ℕ × ℕ)) (P : List ℕ → Type 0)
      : Type 0 where
    pub talks :
        (f : Driver M) (a : A)
        → (m f).1 ≡ some a
        → (back : List ℕ) × Exchange M out back f.device (m f).0.device × P back

  abbrev Silent : List ℕ → Type 0
  Silent back = back ≡ []

  infixr 5 ◌⨾◌
  ◌⨾◌ :
      {A B : Type 0} {m : Op (Driver M) A} {k : Op (Driver M) B} {out out' : List (ℕ × ℕ)}
      {P : List ℕ → Type 0}
      → Talks m out Silent
      → Talks k out' P
      → Talks (m >> k) (out ++ out') P
  ◌⨾◌ {A} {B} {m} {k} {out} {out'} {P} t t' = record {
    talks = λ f b ran.
        let (a, first, step) = >>=-some m (λ _. k) f b ran in
        let rest : (k (m f).0).1 ≡ some b =
          ap (λ (r : Driver M × Option B). r.1) (sym step) ∙ ran in
        let (back, ex, silent) = t.talks f a first in
        let (back', ex', p) = t'.talks (m f).0 b rest in
        let ex0 = subst (λ (bs : List ℕ). Exchange M out bs f.device (m f).0.device) silent ex in
        let joined = Exchange-append ex0 ex' in
        (
          back',
          subst (λ (r : Driver M × Option B). Exchange M (out ++ out') back' f.device r.0.device)
              (sym step) joined,
          p,
        );
  }

  outb-Talks :
      (port value : ℕ)
      → (port == 0x3F5) ≡ false
      → Talks (outb M port value) ((port, value) ∷ []) Silent
  unfolding outb fdc_irq_handler
  outb-Talks port value other = record { talks = λ f a ran. ([], puts port value other done, refl) }

  clear_irq-Talks : Talks (clear_irq M) [] Silent
  unfolding clear_irq
  clear_irq-Talks = record { talks = λ f a ran. ([], done, refl) }

  wait_irq-Exchange :
      (timeout : ℕ) (f : Driver M) (a : Unit {0})
      → (wait_irq M timeout f).1 ≡ some a
      → Exchange M [] [] f.device (wait_irq M timeout f).0.device
  unfolding wait_irq clear_irq halt fdc_irq_handler
  wait_irq-Exchange zero f a ran = absurd (ground arith)
  wait_irq-Exchange (suc timeout) f a ran = elim (Bool-cases f.fdc_irq_received) [
    | inl come ↦ rw (come, wait_irq) done
    | inr not_yet ↦
        let ran' : (wait_irq M timeout (halt M f)).1 ≡ some a = rw (not_yet, wait_irq) at ran in
        rw (not_yet, wait_irq) (waits (wait_irq-Exchange timeout (halt M f) a ran'))
  ]

  fdc_wait_irq-Talks : Talks (fdc_wait_irq M) [] Silent
  unfolding fdc_wait_irq
  fdc_wait_irq-Talks = record { talks = λ f a ran. ([], wait_irq-Exchange 10000 f a ran, refl) }

  -- The state in which the controller has been found ready, before that last look at its status.
  record FoundReady (d after : M.Device) : Type 0 where
    at : M.Device
    ready : nonzero (bit_and (M.inb 0x3F4 at).1 0x80) ≡ true
    looked : after ≡ (M.inb 0x3F4 at).0
    polled :
        (out : List (ℕ × ℕ)) (back : List ℕ) (d' : M.Device)
        → Exchange M out back at d'
        → Exchange M out back d d'

  wait_ready-FoundReady :
      (timeout : ℕ) (f : Driver M) (a : Unit {0})
      → (wait_ready M timeout f).1 ≡ some a
      → FoundReady f.device (wait_ready M timeout f).0.device
  unfolding wait_ready inb fdc_irq_handler
  wait_ready-FoundReady zero f a ran = absurd (ground arith)
  wait_ready-FoundReady (suc timeout) f a ran =
      let f' = (inb M 0x3F4 f).0 in
      elim (Bool-cases (nonzero (bit_and (M.inb 0x3F4 f.device).1 0x80))) [
        | inl is_ready ↦
            rw (is_ready, wait_ready)
              record { at = f.device; ready = is_ready; looked = refl; polled = λ out back d' e. e }
        | inr not_ready ↦
            let ran' : (wait_ready M timeout f').1 ≡ some a = rw (not_ready, wait_ready) at ran in
            let later = wait_ready-FoundReady timeout f' a ran' in
            rw (not_ready, wait_ready)
              record {
                at = later.at;
                ready = later.ready;
                looked = later.looked;
                polled = λ out back d' e. polls (later.polled out back d' e);
              }
      ]

  fdc_write_byte-Talks : (byte : ℕ) → Talks (fdc_write_byte M byte) ((0x3F5, u8 byte) ∷ []) Silent
  unfolding fdc_write_byte fdc_wait_ready outb fdc_irq_handler
  fdc_write_byte-Talks byte = record {
    talks = λ f a ran.
        let (v, waited, step) = >>=-some (fdc_wait_ready M) (λ _. outb M 0x3F5 (u8 byte)) f a ran in
        let found = wait_ready-FoundReady 100000 f v waited in
        let after = (wait_ready M 100000 f).0.device in
        let sent : Exchange M ((0x3F5, u8 byte) ∷ []) [] found.at (M.outb 0x3F5 (u8 byte) after).0 =
          subst
            (λ (d : M.Device).
              Exchange M ((0x3F5, u8 byte) ∷ []) [] found.at (M.outb 0x3F5 (u8 byte) d).0)
            (sym found.looked) (sends (u8 byte) found.ready done) in
        (
          [],
          subst
              (λ (r : Driver M × Option (Unit {0})).
                Exchange M ((0x3F5, u8 byte) ∷ []) [] f.device r.0.device)
              (sym step) (found.polled _ _ _ sent),
          refl,
        );
  }

  fdc_read_byte-Exchange :
      (f : Driver M) (b : ℕ)
      → (fdc_read_byte M f).1 ≡ some b
      → Exchange M [] (b ∷ []) f.device (fdc_read_byte M f).0.device
  unfolding fdc_read_byte inb fdc_irq_handler
  fdc_read_byte-Exchange f b ran =
      let (v, waited, step) = >>=-some (wait_ready M 100000) (λ _. inb M 0x3F5) f b ran in
      let found = wait_ready-FoundReady 100000 f v waited in
      let after = (wait_ready M 100000 f).0.device in
      let got : some (M.inb 0x3F5 after).1 ≡ some b =
        ap (λ (r : Driver M × Option ℕ). r.1) (sym step) ∙ ran in
      let byte : (M.inb 0x3F5 after).1 ≡ b = some-injective _ _ got in
      let read : Exchange M [] ((M.inb 0x3F5 after).1 ∷ []) found.at (M.inb 0x3F5 after).0 =
        subst (λ (d : M.Device). Exchange M [] ((M.inb 0x3F5 d).1 ∷ []) found.at (M.inb 0x3F5 d).0)
          (sym found.looked) (receives found.ready done) in
      subst (λ (r : Driver M × Option ℕ). Exchange M [] (b ∷ []) f.device r.0.device) (sym step)
        (subst (λ (x : ℕ). Exchange M [] (x ∷ []) f.device (M.inb 0x3F5 after).0) byte
          (found.polled _ _ _ read))

  check_status-IsNormal :
      (results : List ℕ) (f : Driver M) (a : Unit {0})
      → length results ≡ 7
      → (check_status M results f).1 ≡ some a
      → ((check_status M results f).0 ≡ f) × IsNormal results
  unfolding check_status
  check_status-IsNormal [] f a count ran = absurd (omega (arith, count))
  check_status-IsNormal (st0 ∷ results) f a count ran =
      elim (Bool-cases (nonzero (bit_and st0 0xC0))) [
        | inl bad ↦ absurd (let h = rw (bad, check_status) at ran in ground arith)
        | inr good ↦ (rw (good, check_status) refl, (good, omega (arith, count)))
      ]

  puts_byte :
      (port byte value : ℕ)
      → byte ≡ value
      → (port == 0x3F5) ≡ false
      → Talks (outb M port byte) ((port, value) ∷ []) Silent
  puts_byte port byte value same other =
      subst (λ (v : ℕ). Talks (outb M port byte) ((port, v) ∷ []) Silent) same
        (outb-Talks port byte other)

  program_channel-Talks :
      (mode count : ℕ)
      → 1 ≤ count
      → count ≤ 2 ^ 16
      → Talks
          (program_channel M mode ((count + 2 ^ 16 - 1) % 2 ^ 16))
          (channel_bytes mode count)
          Silent
  unfolding program_channel
  program_channel-Talks mode count lo hi =
      let less : (count + 2 ^ 16 - 1) % 2 ^ 16 ≡ count - 1 = omega arith in
      let n = count - 1 in
      let low : u8 (bit_and n 0xFF) ≡ n % 256 = ap u8 (and_ones 8 n) ∙ omega arith in
      let high : u8 (bit_and (n / 2 ^ 8) 0xFF) ≡ n / 256 =
        ap u8 (and_ones 8 (n / 2 ^ 8)) ∙ omega arith in
      rw less (
        outb-Talks 0x0A 0x06 refl
        ⨾ (outb-Talks 0x0C 0xFF refl
            ⨾ (outb-Talks 0x0B mode refl
                ⨾ (puts_byte 0x04 (u8 (bit_and 0x20000 0xFF)) 0x00 refl refl
                    ⨾ (puts_byte 0x04 (u8 (bit_and (0x20000 / 2 ^ 8) 0xFF)) 0x00 refl refl
                        ⨾ (puts_byte 0x81 (u8 (bit_and (0x20000 / 2 ^ 16) 0xFF)) 0x02 refl refl
                            ⨾ (puts_byte 0x05 (u8 (bit_and n 0xFF)) (n % 256) low refl
                                ⨾ (puts_byte 0x05 (u8 (bit_and (n / 2 ^ 8) 0xFF)) (n / 256) high
                                      refl
                                    ⨾ outb-Talks 0x0A 0x02 refl))))))))

  sends_byte :
      (byte value : ℕ)
      → u8 byte ≡ value
      → Talks (fdc_write_byte M byte) ((0x3F5, value) ∷ []) Silent
  sends_byte byte value same =
      subst (λ (v : ℕ). Talks (fdc_write_byte M byte) ((0x3F5, v) ∷ []) Silent) same
        (fdc_write_byte-Talks byte)

  pub or_motor_off-some :
      {A : Type 0} (m : Op (Driver M) A) (f : Driver M) (a : A)
      → (or_motor_off M m f).1 ≡ some a
      → or_motor_off M m f ≡ m f
  unfolding or_motor_off
  or_motor_off-some m f a h = elim (Option-cases (m f).1) [
    | inl failed ↦ absurd (let h' = rw (failed, or_motor_off) at h in ground arith)
    | inr (b, ran) ↦ rw (ran, or_motor_off) refl
  ]

  or_motor_off-Talks :
      {A : Type 0} {m : Op (Driver M) A} {out : List (ℕ × ℕ)} {P : List ℕ → Type 0}
      → Talks m out P
      → Talks (or_motor_off M m) out P
  or_motor_off-Talks {A} {m} {out} {P} t = record {
    talks = λ f a ran.
        let same = or_motor_off-some m f a ran in
        let ran' : (m f).1 ≡ some a = ap (λ (r : Driver M × Option A). r.1) (sym same) ∙ ran in
        subst
          (λ (r : Driver M × Option A).
            (back : List ℕ) × Exchange M out back f.device r.0.device × P back)
          (sym same) (t.talks f a ran');
  }

  -- What is read by one byte at a time.
  record Yields (m : Op (Driver M) (List ℕ)) (got : List ℕ) (n : ℕ) : Type 0 where
    yields :
        (f : Driver M) (results : List ℕ)
        → (m f).1 ≡ some results
        → (back : List ℕ) × Exchange M [] back f.device (m f).0.device
          × (results ≡ got ++ back)
          × (length back ≡ n)

  next_byte :
      (k : ℕ → Op (Driver M) (List ℕ)) (got : List ℕ) (n : ℕ)
      → ((b : ℕ) → Yields (k b) (got ++ (b ∷ [])) n)
      → Yields (fdc_read_byte M >>= k) got (suc n)
  next_byte k got n later = record {
    yields = λ f results ran.
        let (b, first, step) = >>=-some (fdc_read_byte M) k f results ran in
        let f' = (fdc_read_byte M f).0 in
        let ran' : (k b f').1 ≡ some results =
          ap (λ (r : Driver M × Option (List ℕ)). r.1) (sym step) ∙ ran in
        let (back, ex, all, count) = (later b).yields f' results ran' in
        let joined = Exchange-append (fdc_read_byte-Exchange f b first) ex in
        (
          b ∷ back,
          subst (λ (r : Driver M × Option (List ℕ)). Exchange M [] (b ∷ back) f.device r.0.device)
              (sym step) joined,
          all ∙ append_assoc got (b ∷ []) back,
          omega (arith, count),
        );
  }

  all_read : (got : List ℕ) → Yields (return got) got 0
  all_read got = record {
    yields = λ f results ran. ([], done, sym (some-injective _ _ ran) ∙ sym (append-nil got), refl);
  }

  write_results-Yields : Yields (write_results M) [] 7
  unfolding write_results
  write_results-Yields = next_byte _ _ _ (λ b0. next_byte _ _ _ (λ b1. next_byte _ _ _ (λ b2.
      next_byte _ _ _ (λ b3.
        next_byte _ _ _ (λ b4. next_byte _ _ _ (λ b5. next_byte _ _ _ (λ b6. all_read _)))))))

  write_end-Talks :
      Talks (write_results M >>= (λ results. or_motor_off M (check_status M results))) [] IsNormal
  write_end-Talks = record {
    talks = λ f a ran.
        let k = λ (rs : List ℕ). or_motor_off M (check_status M rs) in
        let (results, got, step) = >>=-some (write_results M) k f a ran in
        let f' = (write_results M f).0 in
        let (back, ex, all, count) = write_results-Yields.yields f results got in
        let ran' : (k results f').1 ≡ some a =
          ap (λ (r : Driver M × Option (Unit {0})). r.1) (sym step) ∙ ran in
        let same = or_motor_off-some (check_status M results) f' a ran' in
        let ran2 : (check_status M results f').1 ≡ some a =
          ap (λ (r : Driver M × Option (Unit {0})). r.1) (sym same) ∙ ran' in
        let seven : length results ≡ 7 = ap (λ (xs : List ℕ). length xs) all ∙ count in
        let (kept, normal) = check_status-IsNormal results f' a seven ran2 in
        let at_end = ap (λ (r : Driver M × Option (Unit {0})). r.0) (step ∙ same) ∙ kept in
        (
          back,
          subst (λ (g : Driver M). Exchange M [] back f.device g.device) (sym at_end) ex,
          subst IsNormal all normal,
        );
  }

  write_parameters-Talks :
      (c h s : ℕ)
      → OnDisk (c, h, s)
      → Talks
          (write_parameters M c h s)
          ((0x3F5, h * 4)
            ∷ (0x3F5, c)
            ∷ (0x3F5, h)
            ∷ (0x3F5, s)
            ∷ (0x3F5, 2)
            ∷ (0x3F5, 18)
            ∷ (0x3F5, 0x1B)
            ∷ (0x3F5, 0xFF)
            ∷ [])
          Silent
  unfolding write_parameters
  write_parameters-Talks c h s on =
      let (hc, hh, hs, hs') = on in
      sends_byte (bit_or (h * 2 ^ 2) 0) (h * 4) (ap u8 (or-zero (h * 2 ^ 2)) ∙ omega arith)
      ⨾ (sends_byte c c (omega arith)
          ⨾ (sends_byte h h (omega arith)
              ⨾ (sends_byte s s (omega arith)
                  ⨾ (sends_byte 2 2 refl
                      ⨾ (sends_byte 18 18 refl
                          ⨾ (sends_byte 0x1B 0x1B refl ⨾ sends_byte 0xFF 0xFF refl))))))

  -- The same of a write, which reads the buffer.
  pub write_command-Talks :
      (c h s : ℕ)
      → OnDisk (c, h, s)
      → Talks (write_command M (c, h, s)) (write_bytes c h s) IsNormal
  unfolding write_command dma_setup_write dma_count
  write_command-Talks c h s on =
      program_channel-Talks 0x4A 512 (omega arith) (omega arith)
      ⨾ (clear_irq-Talks
          ⨾ (or_motor_off-Talks (sends_byte (bit_or 0x05 0x40) 0x45 refl)
              ⨾ (write_parameters-Talks c h s on
                  ⨾ (or_motor_off-Talks fdc_wait_irq-Talks ⨾ write_end-Talks))))
