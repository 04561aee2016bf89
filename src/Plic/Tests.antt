-- ===== src/Plic/Tests.antt =====
-- src/drivers/plic/mod.rs on a controller that records what is written to it.
use vesper.Prelude.{ℕ, ◌+◌, ◌≡◌, refl, some, List, [], ◌∷◌, done, panic}
use vesper.Mmio.{Device}
use vesper.Plic.{
  priority, claim_hart0_m, threshold_hart0_m, enable_hart0_m, enable, set_priority, set_threshold,
  next, complete,
}

abbrev log : Device (List ℕ)
log = record { read = λ a d. (4, d); write = λ a v d. a ∷ v ∷ d }

enable_run : (enable log 10 [] ≡ done (enable_hart0_m ∷ 1028 ∷ [])) × (enable log 32 [] ≡ panic)
unfolding enable
enable_run = (refl, refl)

priority_run :
    set_priority log 10 9 (set_threshold log 8 [])
    ≡ (priority + 40) ∷ 1 ∷ threshold_hart0_m ∷ 0 ∷ []
unfolding set_priority set_threshold
priority_run = refl

claim_run : (next log [] ≡ (some 4, [])) × (complete log 4 [] ≡ claim_hart0_m ∷ 4 ∷ [])
unfolding next complete
claim_run = (refl, refl)
