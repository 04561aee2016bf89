-- ===== src/Trap/External.antt =====
-- An external interrupt of src/arch/riscv64/trap.rs, from the claim to the completion.
use vesper.Prelude.{
  ℕ, ◌<◌, ◌≤◌, ◌≡◌, refl, sym, ap, ◌∙◌, some, none, List, ◌∷◌, ◌++◌, arith, option_bind-some, done,
}
use vesper.Mmio.{Device}
use vesper.Minix.{Driver}
use vesper.Uart.{Uart, uart_base, new, get, write_str}
use vesper.Uart.Line.{Line, Behaves}
use vesper.Uart.Keeps.{Untouched, get-keeps, write_str-keeps}
use vesper.Escape.{EscState, echo_uart}
use vesper.Escape.Console.{echo_interrupt, echo_interrupt_lem}
use vesper.Plic.{claim_hart0_m, uart0_irq}
use vesper.Plic.Context.{Context, Claims, others}
use vesper.Virtio.Device.{Shared}
use vesper.Trap.{Machine, handle_external}

-- What the lines of the UART show is not changed by an access to the claim register.
pub record LineApart {D : Type 0} (device : Device D) (line : Line D) : Type 0 where
  pub claim_sent : (d : D) → line.sent (device.read claim_hart0_m d).1 ≡ line.sent d
  pub claim_received : (d : D) → line.received (device.read claim_hart0_m d).1 ≡ line.received d
  pub claim_delay : (d : D) → line.delay (device.read claim_hart0_m d).1 ≡ line.delay d
  pub complete_sent : (id : ℕ) (d : D) → line.sent (device.write claim_hart0_m id d) ≡ line.sent d
  pub complete_received :
      (id : ℕ) (d : D) → line.received (device.write claim_hart0_m id d) ≡ line.received d

echo_interrupt-keeps :
    {D A : Type 0} (device : Device D) (uart : Uart) (f : D → A) (fuel : ℕ) (s s' : EscState)
    (d d' : D)
    → Untouched device uart f
    → echo_interrupt device uart fuel s d ≡ some (s', d')
    → f d' ≡ f d
unfolding echo_interrupt
echo_interrupt-keeps device uart f fuel s s' d d' untouched e =
    let d₁ = (get device uart d).1 in
    let out = (echo_uart s (get device uart d).0).1 in
    let (d₂, sent, ends) = option_bind-some (write_str device uart fuel out d₁) _ e in
    let same : d₂ ≡ d' = cc in
    ap f (sym same)
    ∙ write_str-keeps device uart f untouched fuel out d₁ d₂ sent
    ∙ get-keeps device uart f untouched d

module _ {D : Type 0} (device : Device D) (shared : ℕ → Shared) (driver : Driver) (memory : ℕ → ℕ)
    (fuel : ℕ) (line : Line D) (bound : ℕ) (context : Context D) where
  -- On a UART and an interrupt controller that behave, where an access to the UART changes no other source
  -- and not which one is served, with fuel for one status read more than the transmitter is ever busy:
  -- if the UART's interrupt is the one to be served next and a byte waits on the line, the handler
  -- returns. It took this byte and no other, sent what the state machine of the echo shows for it, and
  -- left the echo in its next state; the interrupt was claimed and completed, and the other sources
  -- wait as before. The UART's own source may wait again.
  pub handle_external-uart :
      Behaves device (new uart_base) line bound
      → Claims device context
      → LineApart device line
      → Untouched device (new uart_base) (λ d. others uart0_irq (context.waiting d))
      → Untouched device (new uart_base) context.serving
      → bound < fuel
      → (m : Machine D) (ids : List ℕ) (b : ℕ) (bs : List ℕ)
      → context.waiting m.io ≡ uart0_irq ∷ ids
      → line.received m.io ≡ b ∷ bs
      → line.delay m.io ≤ bound
      → (d : D) × (handle_external device shared driver memory fuel m
          ≡ done (record m { esc_state = (echo_uart m.esc_state (some b)).0; io = d }))
        × (line.sent d ≡ line.sent m.io ++ (echo_uart m.esc_state (some b)).1)
        × (line.received d ≡ bs)
        × (others 10 (context.waiting d) ≡ others 10 ids)
        × (context.serving d ≡ none)
  unfolding handle_external
  handle_external-uart behaves claims apart waits serves enough m ids b bs asked byte ready =
      let uart = new uart_base in
      let (id, _, left, serving) = claims.source m.io uart0_irq ids asked in
      let d₁ = (device.read claim_hart0_m m.io).1 in
      let (d₂, echoed, sent, received, _) =
        echo_interrupt_lem device uart line bound fuel behaves enough m.esc_state d₁ (b ∷ bs)
          (apart.claim_received m.io ∙ byte) (omega (arith, apart.claim_delay m.io)) in
      let s = (echo_uart m.esc_state (some b)).0 in
      let serving₂ =
        echo_interrupt-keeps device uart context.serving fuel m.esc_state s d₁ d₂ serves echoed in
      let waiting₂ =
        echo_interrupt-keeps device uart (λ d. others uart0_irq (context.waiting d)) fuel
          m.esc_state s d₁ d₂ waits echoed in
      let (idle, waiting₃) = claims.completion d₂ uart0_irq (serving₂ ∙ serving) in
      (
        device.write claim_hart0_m uart0_irq d₂,
        rw id (rw echoed refl),
        apart.complete_sent uart0_irq d₂
            ∙ sent
            ∙ ap (λ l. l ++ (echo_uart m.esc_state (some b)).1) (apart.claim_sent m.io),
        apart.complete_received uart0_irq d₂ ∙ received,
        waiting₃ ∙ waiting₂ ∙ ap (others uart0_irq) left,
        idle,
      )
