-- ===== src/Fdc/Quiet.antt =====
-- The operations of src/fdc.c that leave the medium as it is, whether they succeed or not.
use sant_os.Prelude.{
  ℕ, zero, suc, Mem, false, ◌&&◌, List, ◌==◌, ◌∷◌, [], ◌≡◌, refl, nonzero, bit_and, u8, Bool-cases,
  Option-cases, inl, inr, ◌∙◌,
}
use sant_os.Fdc.{
  Machine, Op, return, ◌>>=◌, ◌>>◌, Driver, outb, inb, halt, fdc_irq_handler, clear_irq, wait_irq,
  fdc_wait_irq, wait_ready, fdc_wait_ready, fdc_write_byte, fdc_read_byte, program_channel,
  dma_count, dma_setup_read, fdc_motor_on, fdc_motor_off,
}
use sant_os.Fdc.Commands.{sense_interrupt, fdc_seek}
use sant_os.Fdc.Transfer.{read_results, check_status, read_command}
use sant_os.Fdc.Protocol.{IsController}

module _ (M : Machine) (medium : M.Device → ℕ → Mem) (Quiet : M.Device → Type 0)
    (ok : IsController M medium Quiet) where
  -- From a state in which the channel is not set up for a write, an operation that leads to another
  -- such state with the same medium.
  pub record IsQuiet {A : Type 0} (m : Op (Driver M) A) : Type 0 where
    pub keeps :
        (f : Driver M)
        → Quiet f.device
        → Quiet (m f).0.device × (medium (m f).0.device ≡ medium f.device)

  IsQuiet-bind :
      {A B : Type 0} (m : Op (Driver M) A) (k : A → Op (Driver M) B)
      → IsQuiet m
      → ((a : A) → IsQuiet (k a))
      → IsQuiet (m >>= k)
  IsQuiet-bind m k q later = record {
    keeps = λ f at_rest.
        let (still, same) = q.keeps f at_rest in
        elim (Option-cases (m f).1) [
          | inl failed ↦ rw (failed, ◌>>=◌) (still, same)
          | inr (a, ran) ↦
              let (still', same') = (later a).keeps (m f).0 still in
              rw (ran, ◌>>=◌) (still', same' ∙ same)
        ];
  }

  infixr 5 ◌⨟◌
  ◌⨟◌ :
      {A B : Type 0} {m : Op (Driver M) A} {k : Op (Driver M) B}
      → IsQuiet m
      → IsQuiet k
      → IsQuiet (m >> k)
  ◌⨟◌ {A} {B} {m} {k} q q' = IsQuiet-bind m (λ _. k) q (λ _. q')

  outb-IsQuiet :
      (port value : ℕ) → ((port == 0x0B) && (value == 0x4A)) ≡ false → IsQuiet (outb M port value)
  unfolding outb fdc_irq_handler
  outb-IsQuiet port value safe = record { keeps = λ f q. ok.put_keeps port value f.device q safe }

  inb-IsQuiet : (port : ℕ) → IsQuiet (inb M port)
  unfolding inb fdc_irq_handler
  inb-IsQuiet port = record { keeps = λ f q. ok.get_keeps port f.device q }

  clear_irq-IsQuiet : IsQuiet (clear_irq M)
  unfolding clear_irq
  clear_irq-IsQuiet = record { keeps = λ f q. (q, refl) }

  return-IsQuiet : {A : Type 0} (a : A) → IsQuiet (return a)
  return-IsQuiet a = record { keeps = λ f q. (q, refl) }

  wait_irq-IsQuiet : (timeout : ℕ) → IsQuiet (wait_irq M timeout)
  unfolding wait_irq clear_irq halt fdc_irq_handler
  wait_irq-IsQuiet zero = record { keeps = λ f q. (q, refl) }
  wait_irq-IsQuiet (suc timeout) = record {
    keeps = λ f q. elim (Bool-cases f.fdc_irq_received) [
      | inl come ↦ rw (come, wait_irq) (q, refl)
      | inr not_yet ↦
          let (still, same) = ok.wait_keeps f.device q in
          let (still', same') = (wait_irq-IsQuiet timeout).keeps (halt M f) still in
          rw (not_yet, wait_irq) (still', same' ∙ same)
    ];
  }

  fdc_wait_irq-IsQuiet : IsQuiet (fdc_wait_irq M)
  unfolding fdc_wait_irq
  fdc_wait_irq-IsQuiet = wait_irq-IsQuiet 10000

  wait_ready-IsQuiet : (timeout : ℕ) → IsQuiet (wait_ready M timeout)
  unfolding wait_ready inb fdc_irq_handler
  wait_ready-IsQuiet zero = record { keeps = λ f q. (q, refl) }
  wait_ready-IsQuiet (suc timeout) = record {
    keeps = λ f q.
        let (still, same) = ok.get_keeps 0x3F4 f.device q in
        elim (Bool-cases (nonzero (bit_and (M.inb 0x3F4 f.device).1 0x80))) [
          | inl is_ready ↦ rw (is_ready, wait_ready) (still, same)
          | inr not_ready ↦
              let (still', same') = (wait_ready-IsQuiet timeout).keeps (inb M 0x3F4 f).0 still in
              rw (not_ready, wait_ready) (still', same' ∙ same)
        ];
  }

  byte-IsQuiet : (byte : ℕ) → IsQuiet (fdc_write_byte M byte)
  unfolding fdc_write_byte fdc_wait_ready
  byte-IsQuiet byte = wait_ready-IsQuiet 100000 ⨟ outb-IsQuiet 0x3F5 (u8 byte) refl

  read_byte-IsQuiet : IsQuiet (fdc_read_byte M)
  unfolding fdc_read_byte
  read_byte-IsQuiet = wait_ready-IsQuiet 100000 ⨟ inb-IsQuiet 0x3F5

  read_results-IsQuiet : (n : ℕ) → IsQuiet (read_results M n)
  unfolding read_results
  read_results-IsQuiet zero = record { keeps = λ f q. (q, refl) }
  read_results-IsQuiet (suc n) = record {
    keeps = λ f q.
        let (still, same) = read_byte-IsQuiet.keeps f q in
        let (still', same') = (read_results-IsQuiet n).keeps (fdc_read_byte M f).0 still in
        elim (Option-cases (fdc_read_byte M f).1) [
          | inl failed ↦ rw (failed, read_results) (still', same' ∙ same)
          | inr (b, got) ↦ rw (got, read_results) (still', same' ∙ same)
        ];
  }

  check_status-IsQuiet : (results : List ℕ) → IsQuiet (check_status M results)
  unfolding check_status
  check_status-IsQuiet [] = record { keeps = λ f q. (q, refl) }
  check_status-IsQuiet (st0 ∷ results) = record {
    keeps = λ f q. elim (Bool-cases (nonzero (bit_and st0 0xC0))) [
      | inl bad ↦ rw (bad, check_status) (q, refl)
      | inr good ↦ rw (good, check_status) (q, refl)
    ];
  }

  channel-IsQuiet : (count : ℕ) → IsQuiet (program_channel M 0x46 count)
  unfolding program_channel
  channel-IsQuiet count =
      outb-IsQuiet _ _ refl
      ⨟ (outb-IsQuiet _ _ refl
          ⨟ (outb-IsQuiet _ _ refl
              ⨟ (outb-IsQuiet _ _ refl
                  ⨟ (outb-IsQuiet _ _ refl
                      ⨟ (outb-IsQuiet _ _ refl
                          ⨟ (outb-IsQuiet _ _ refl
                              ⨟ (outb-IsQuiet _ _ refl ⨟ outb-IsQuiet _ _ refl)))))))

  pub read_command-IsQuiet : (c h s n : ℕ) → IsQuiet (read_command M c h s n)
  unfolding read_command dma_setup_read
  read_command-IsQuiet c h s n =
      channel-IsQuiet (dma_count n)
      ⨟ (clear_irq-IsQuiet
          ⨟ (byte-IsQuiet _
              ⨟ (byte-IsQuiet _
                  ⨟ (byte-IsQuiet _
                      ⨟ (byte-IsQuiet _
                          ⨟ (byte-IsQuiet _
                              ⨟ (byte-IsQuiet _
                                  ⨟ (byte-IsQuiet _
                                      ⨟ (byte-IsQuiet _
                                          ⨟ (byte-IsQuiet _
                                              ⨟ (fdc_wait_irq-IsQuiet
                                                  ⨟ IsQuiet-bind (read_results M 7) (check_status M)
                                                      (read_results-IsQuiet 7)
                                                      (λ r. check_status-IsQuiet r))))))))))))

  sense-IsQuiet : IsQuiet (sense_interrupt M)
  unfolding sense_interrupt
  sense-IsQuiet =
      byte-IsQuiet 0x08
      ⨟ IsQuiet-bind (fdc_read_byte M) _ read_byte-IsQuiet (λ st0. read_byte-IsQuiet)

  pub fdc_seek-IsQuiet : (c h : ℕ) → IsQuiet (fdc_seek M c h)
  unfolding fdc_seek
  fdc_seek-IsQuiet c h =
      clear_irq-IsQuiet
      ⨟ (byte-IsQuiet _
          ⨟ (byte-IsQuiet _
              ⨟ (byte-IsQuiet _
                  ⨟ (fdc_wait_irq-IsQuiet
                      ⨟ IsQuiet-bind (sense_interrupt M) _ sense-IsQuiet
                          (λ cyl. return-IsQuiet tt)))))

  pub fdc_motor_on-IsQuiet : IsQuiet (fdc_motor_on M)
  unfolding fdc_motor_on
  fdc_motor_on-IsQuiet = outb-IsQuiet 0x3F2 0x1C refl

  pub fdc_motor_off-IsQuiet : IsQuiet (fdc_motor_off M)
  unfolding fdc_motor_off
  fdc_motor_off-IsQuiet = outb-IsQuiet 0x3F2 0x0C refl
