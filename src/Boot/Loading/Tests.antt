-- ===== src/Boot/Loading/Tests.antt =====
-- An image that is too short for src/boot/entry.rs.
use vesper.Prelude.{◌≡◌, refl, [], ◌∷◌}
use vesper.Minix.{ok}
use vesper.Elf.{truncated}
use vesper.Boot.Loading.{elf_failed, elf_report, file_report}

-- Zeros are too short, and no executable.
report_run : file_report 3 (ok (3, 0 ∷ 0 ∷ 0 ∷ [])) ≡ elf_failed truncated
unfolding file_report elf_report
report_run = refl
