-- ===== src/Sv39/PteFlags.antt =====
-- src/mm/paging/sv39/types.rs: the constants of `PteFlags`, and their union.
use vesper.Prelude.{ℕ, ◌^◌, bit_or}

abbrev pub valid : ℕ
valid = 2 ^ 0

abbrev pub read : ℕ
read = 2 ^ 1

abbrev pub write : ℕ
write = 2 ^ 2

abbrev pub execute : ℕ
execute = 2 ^ 3

abbrev pub user : ℕ
user = 2 ^ 4

abbrev pub global : ℕ
global = 2 ^ 5

abbrev pub accessed : ℕ
accessed = 2 ^ 6

abbrev pub dirty : ℕ
dirty = 2 ^ 7

abbrev pub rwx : ℕ
rwx = 0xe

-- `|`
abbrev pub bitor : ℕ → ℕ → ℕ
bitor a b = bit_or a b
