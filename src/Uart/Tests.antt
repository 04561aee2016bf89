-- ===== src/Uart/Tests.antt =====
-- Bytes sent by src/drivers/uart/mod.rs while the transmitter is still busy.
use vesper.Prelude.{◌≡◌, refl, some, [], ◌∷◌, none}
use vesper.Uart.{write_str, get}
use vesper.Uart.Sample.{State, device, uart}

abbrev busy : State
busy = record { sent = 1 ∷ []; received = 5 ∷ 6 ∷ []; busy = 1 }

write_run :
    write_str device uart 3 (7 ∷ 8 ∷ []) busy
    ≡ some (record { sent = 1 ∷ 7 ∷ 8 ∷ []; received = 5 ∷ 6 ∷ []; busy = 2 })
unfolding write_str
write_run = refl

-- With less fuel than the transmitter is busy.
write_stuck : write_str device uart 2 (7 ∷ 8 ∷ []) busy ≡ none
unfolding write_str
write_stuck = refl

get_run : get device uart busy ≡ (some 5, record { sent = 1 ∷ []; received = 6 ∷ []; busy = 0 })
unfolding get
get_run = refl
