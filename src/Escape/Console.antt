-- ===== src/Escape/Console.antt =====
-- `echo_uart` of src/arch/riscv64/trap.rs between the two lines of the UART, one call an interrupt.
use vesper.Prelude.{
  ℕ, zero, suc, ◌<◌, ◌≤◌, ◌≡◌, refl, sym, ap, ◌∙◌, Option, some, List, [], ◌∷◌, ◌++◌, arith,
  option_bind, length, map,
}
use mathlib.Core.List.{append_assoc, append-nil}
use vesper.Mmio.{Device}
use vesper.Uart.{Uart, get, write_str}
use vesper.Uart.Line.{Line, Behaves}
use vesper.Uart.Send.{write_str-Sends}
use vesper.Uart.Receive.{first, rest, get-at}
use vesper.Escape.{EscState, idle, echo_uart, echo_all}
use vesper.Escape.Grammar.{shown, echo_all-shown}

module _ {D : Type 0} (device : Device D) (uart : Uart) (fuel : ℕ) where
  -- The text that a call prints, and the state that it leaves.
  abbrev pub printed : D → EscState × List ℕ → Option (EscState × D)
  printed d (s, out) = option_bind (write_str device uart fuel out d) λ d'. some (s, d')

  abbrev pub echo_got : EscState → Option ℕ × D → Option (EscState × D)
  echo_got s (c, d) = printed d (echo_uart s c)

  -- One call, which begins by `uart.get()`.
  unfoldable pub echo_interrupt : EscState → D → Option (EscState × D)
  unfolding echo_uart
  echo_interrupt s d = echo_got s (get device uart d)

  unfoldable pub echo_interrupts : ℕ → EscState → D → Option (EscState × D)
  unfolding echo_interrupt
  echo_interrupts zero s d = some (s, d)
  echo_interrupts (suc n) s d =
      option_bind (echo_interrupt s d) λ r. let (s', d') = r in echo_interrupts n s' d'

module _ {D : Type 0} (device : Device D) (uart : Uart) (line : Line D) (bound fuel : ℕ)
    (behaves : Behaves device uart line bound) (enough : bound < fuel) where
  pub echo_interrupt_lem :
      (s : EscState) (d : D) (input : List ℕ)
      → line.received d ≡ input
      → line.delay d ≤ bound
      → (d' : D) × (echo_interrupt device uart fuel s d ≡ some ((echo_uart s (first input)).0, d'))
        × (line.sent d' ≡ line.sent d ++ (echo_uart s (first input)).1)
        × (line.received d' ≡ rest input)
        × (line.delay d' ≤ bound)
  unfolding echo_interrupt
  echo_interrupt_lem s d input e ready =
      let (c, d₁) = get device uart d in
      let (byte, left, same, delay) = get-at device uart line bound behaves d input e in
      let (d', ends, sends) =
        write_str-Sends device uart line bound behaves fuel (echo_uart s (first input)).1
          (get device uart d).1 enough (omega (arith, delay)) in
      (
        d',
        ap (λ c. printed device uart fuel (get device uart d).1 (echo_uart s c)) byte ∙ rw ends,
        sends.sent ∙ ap (λ l. l ++ (echo_uart s (first input)).1) same,
        sends.received ∙ left,
        sends.delay,
      )

  -- A number of calls, no fewer than the bytes that wait.
  echo_interrupts_lem :
      (n : ℕ) (s : EscState) (d : D) (input : List ℕ)
      → line.received d ≡ input
      → length input ≤ n
      → line.delay d ≤ bound
      → (d' : D) × (echo_interrupts device uart fuel n s d
          ≡ some ((echo_all s (map some input)).0, d'))
        × (line.sent d' ≡ line.sent d ++ (echo_all s (map some input)).1)
        × (line.received d' ≡ [])
  unfolding echo_interrupts echo_all
  echo_interrupts_lem zero s d [] e le ready = (d, refl, sym (append-nil (line.sent d)), e)
  echo_interrupts_lem zero s d (b ∷ bs) e le ready = absurd (omega arith)
  echo_interrupts_lem (suc n) s d [] e le ready =
      let (d₁, one, sent, left, ready₁) = echo_interrupt_lem s d [] e ready in
      let (d₂, more, sent', left') = echo_interrupts_lem n s d₁ [] left (omega arith) ready₁ in
      (d₂, rw one more, sent' ∙ append-nil _ ∙ sent, left')
  echo_interrupts_lem (suc n) s d (b ∷ bs) e le ready =
      let (d₁, one, sent, left, ready₁) = echo_interrupt_lem s d (b ∷ bs) e ready in
      let s₁ = (echo_uart s (some b)).0 in
      let (d₂, more, sent', left') = echo_interrupts_lem n s₁ d₁ bs left (omega arith) ready₁ in
      (
        d₂,
        rw one more,
        sent'
            ∙ ap (λ l. l ++ (echo_all s₁ (map some bs)).1) sent
            ∙ append_assoc (line.sent d) (echo_uart s (some b)).1 (echo_all s₁ (map some bs)).1,
        left',
      )

  -- On a UART that behaves, with fuel for one status read more than its transmitter is ever busy, from
  -- the idle state, as many interrupts as there are bytes waiting, or more, take all of them off the
  -- line, and send what the look-ahead reading of these bytes shows, behind what was sent before.
  pub echo_interrupts-shown :
      (n : ℕ) (d : D)
      → length (line.received d) ≤ n
      → line.delay d ≤ bound
      → (s : EscState) × (d' : D) × (echo_interrupts device uart fuel n idle d ≡ some (s, d'))
        × (line.sent d' ≡ line.sent d ++ shown (line.received d))
        × (line.received d' ≡ [])
  echo_interrupts-shown n d le ready =
      let input = line.received d in
      let (d', ends, sent, left) = echo_interrupts_lem n idle d input refl le ready in
      (
        (echo_all idle (map some input)).0,
        d',
        ends,
        sent ∙ ap (λ l. line.sent d ++ l) (echo_all-shown input),
        left,
      )
