-- ===== src/Escape/Tests.antt =====
-- The echo of a short line: an arrow key, a rubbed-out letter, an `ESC` on its own.
use vesper.Prelude.{ℕ, ◌≡◌, List, [], ◌∷◌, some, ◌++◌, arith}
use vesper.Escape.{EscState, idle, esc}
use vesper.Uart.Sample.{State, device, uart, line, device-Behaves}
use vesper.Escape.Console.{echo_interrupts, echo_interrupts-shown}
use vesper.Escape.Grammar.{shown}

abbrev line_input : List ℕ
line_input = esc ∷ b'[' ∷ b'A' ∷ b'h' ∷ 0x7f ∷ esc ∷ b'x' ∷ b'\r' ∷ []

-- The line waits, one byte was sent, and the transmitter is free.
abbrev waiting : State
waiting = record { sent = 1 ∷ []; received = line_input; busy = 0 }

echo_interrupts-shown_example :
    (s : EscState) × (d' : State) × (echo_interrupts device uart 3 10 idle waiting ≡ some (s, d'))
    × (d'.sent ≡ (1 ∷ []) ++ shown line_input)
    × (d'.received ≡ [])
echo_interrupts-shown_example =
    echo_interrupts-shown device uart line 2 3 device-Behaves (omega arith) 10 waiting (omega arith)
      (omega arith)
