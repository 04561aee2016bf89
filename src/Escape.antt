-- ===== src/Escape.antt =====
-- src/arch/riscv64/trap.rs, `echo_uart`: the console echo with its state between bytes, which keeps
-- ANSI CSI sequences (`ESC [ X`) together.
pub mod Grammar
pub mod Console
mod Tests
use vesper.Prelude.{
  ℕ, ◌+◌, ◌/◌, ◌%◌, ◌||◌, Option, none, some, List, [], ◌∷◌, ◌++◌, ltb, ◌==◌, if◌then◌else◌,
}
use Prim.Native.Char.{code}
use Prim.Native.String
use Prim.Native.String.{String}

pub data EscState : Type 0 where
  idle esc_seen csi_open : EscState

-- The bytes of an ASCII text.
abbrev pub codes : String → List ℕ
codes String.[] = []
codes (String.◌∷◌ c s) = code c ∷ codes s

abbrev pub esc : ℕ
esc = 0x1b

-- `println!` ends in CRLF.
abbrev pub crlf : List ℕ
crlf = 13 ∷ 10 ∷ []

abbrev pub println : String → List ℕ
println s = codes s ++ crlf

-- `print!("{}", c as char)`: a byte from 128 on is a Latin-1 character, in two bytes of UTF-8.
abbrev pub print_char : ℕ → List ℕ
print_char c = if ltb c 128 then c ∷ [] else (0xc0 + c / 64) ∷ (0x80 + c % 64) ∷ []

abbrev pub rub_out : List ℕ
rub_out = 8 ∷ 32 ∷ 8 ∷ []

-- A byte outside a sequence that does not begin one.
abbrev pub plain : ℕ → List ℕ
plain c =
    if (c == 0x08) || (c == 0x7f)
    then rub_out
    else if (c == b'\r') || (c == b'\n')
    then crlf
    else print_char c

-- The last byte of a CSI sequence.
abbrev pub arrow : ℕ → List ℕ
arrow c =
    if c == b'A'
    then println "up arrow!"
    else if c == b'B'
    then println "down arrow!"
    else if c == b'C'
    then println "right arrow!"
    else if c == b'D'
    then println "left arrow!"
    else []

-- One byte: the next state and the bytes that go to the console.
unfoldable pub echo_byte : EscState → ℕ → EscState × List ℕ
echo_byte idle c = if c == esc then (esc_seen, []) else (idle, plain c)
echo_byte esc_seen c = (if c == b'[' then csi_open else idle, [])
echo_byte csi_open c = (idle, arrow c)

-- One interrupt; the receive register may be empty.
unfoldable pub echo_uart : EscState → Option ℕ → EscState × List ℕ
unfolding echo_byte
echo_uart s none = (s, [])
echo_uart s (some c) = echo_byte s c

-- A sequence of interrupts, with what each of them finds.
unfoldable pub echo_all : EscState → List (Option ℕ) → EscState × List ℕ
echo_all s [] = (s, [])
echo_all s (c ∷ cs) =
    let (s', out) = echo_uart s c in let (t, rest) = echo_all s' cs in (t, out ++ rest)
