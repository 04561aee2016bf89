-- ===== src/Plic/Context.antt =====
-- What src/drivers/plic/mod.rs relies on of the interrupt controller.
use vesper.Prelude.{ℕ, ◌≡◌, ◌≢◌, Option, none, some, List, [], ◌∷◌, ◌==◌, if◌then◌else◌}
use vesper.Mmio.{Device}
use vesper.Plic.{claim_hart0_m}

-- Of the controller's state: the sources that ask for service, the one to be served first in front, and
-- the one that is being served.
pub record Context (D : Type 0) : Type 0 where
  pub waiting : D → List ℕ
  pub serving : D → Option ℕ

-- The sources but one.
abbrev pub others : ℕ → List ℕ → List ℕ
others id [] = []
others id (n ∷ ns) = let rest = others id ns in if n == id then rest else n ∷ rest

-- A claim hands out the first source, or 0. A source that is completed is no longer served, and the others
-- wait as before; whether it waits again is left open, for its line may still be high.
pub record Claims {D : Type 0} (device : Device D) (context : Context D) : Type 0 where
  pub nothing : (d : D) → context.waiting d ≡ [] → (device.read claim_hart0_m d).0 ≡ 0
  pub source :
      (d : D) (id : ℕ) (ids : List ℕ)
      → context.waiting d ≡ id ∷ ids
      → ((device.read claim_hart0_m d).0 ≡ id)
        × (id ≢ 0)
        × (context.waiting (device.read claim_hart0_m d).1 ≡ ids)
        × (context.serving (device.read claim_hart0_m d).1 ≡ some id)
  pub completion :
      (d : D) (id : ℕ)
      → context.serving d ≡ some id
      → (context.serving (device.write claim_hart0_m id d) ≡ none)
        × (others id (context.waiting (device.write claim_hart0_m id d))
            ≡ others id (context.waiting d))
