-- ===== src/Uart/Keeps.antt =====
-- What a driver of src/drivers/uart/mod.rs does not touch.
use vesper.Prelude.{
  arith, option_bind-some, ℕ, zero, suc, ◌≡◌, sym, ap, ◌∙◌, some, List, [], ◌∷◌, bit_and, ◌==◌,
  Bool-cases, inl, inr,
}
use vesper.Mmio.{Device}
use vesper.Uart.{
  Uart, read, write, lsr, rbr_thr, lsr_thr_empty, lsr_data_ready, wait_empty, put, get, write_str,
}

-- No access to the UART changes it.
pub record Untouched {ℓ} {D : Type 0} {A : Type ℓ} (device : Device D) (uart : Uart) (f : D → A)
    : Type ℓ where
  pub on_read : (offset : ℕ) (d : D) → f (read device uart offset d).1 ≡ f d
  pub on_write : (offset v : ℕ) (d : D) → f (write device uart offset v d) ≡ f d

module _ {ℓ} {D : Type 0} {A : Type ℓ} (device : Device D) (uart : Uart) (f : D → A)
    (untouched : Untouched device uart f) where
  wait_empty-keeps : (fuel : ℕ) (d d' : D) → wait_empty device uart fuel d ≡ some d' → f d' ≡ f d
  unfolding wait_empty
  wait_empty-keeps zero d d' e = absurd (ground arith)
  wait_empty-keeps (suc fuel) d d' e =
      elim (Bool-cases (bit_and ((read device uart lsr d).0) lsr_thr_empty == 0)) [
        | inl busy ↦
            wait_empty-keeps fuel (read device uart lsr d).1 d' (rw busy at e)
            ∙ untouched.on_read lsr d
        | inr empty ↦
            let same : (read device uart lsr d).1 ≡ d' = cc (rw empty at e) in
            ap f (sym same) ∙ untouched.on_read lsr d
      ]

  put-keeps : (fuel byte : ℕ) (d d' : D) → put device uart fuel byte d ≡ some d' → f d' ≡ f d
  unfolding put
  put-keeps fuel byte d d' e =
      let (d₁, waited, sent) = option_bind-some (wait_empty device uart fuel d) _ e in
      let same : write device uart rbr_thr byte d₁ ≡ d' = cc in
      ap f (sym same) ∙ untouched.on_write rbr_thr byte d₁ ∙ wait_empty-keeps fuel d d₁ waited

  pub write_str-keeps :
      (fuel : ℕ) (bytes : List ℕ) (d d' : D)
      → write_str device uart fuel bytes d ≡ some d'
      → f d' ≡ f d
  unfolding write_str
  write_str-keeps fuel [] d d' e = ap f (sym (cc))
  write_str-keeps fuel (byte ∷ bytes) d d' e =
      let (d₁, one, more) =
        option_bind-some (put device uart fuel byte d) (write_str device uart fuel bytes) e in
      write_str-keeps fuel bytes d₁ d' more ∙ put-keeps fuel byte d d₁ one

  pub get-keeps : (d : D) → f (get device uart d).1 ≡ f d
  unfolding get
  get-keeps d = elim (Bool-cases (bit_and ((read device uart lsr d).0) lsr_data_ready == 0)) [
    | inl nothing ↦ rw nothing (untouched.on_read lsr d)
    | inr byte ↦ rw byte (untouched.on_read rbr_thr _ ∙ untouched.on_read lsr d)
  ]
