-- ===== src/Boot/Route.antt =====
-- The interrupts that `kinit` of src/boot/entry.rs lets through.
use vesper.Prelude.{
  ℕ, zero, suc, ◌+◌, ◌*◌, ◌%◌, ◌^◌, ◌<◌, ◌≤◌, ◌≡◌, ◌≢◌, refl, sym, ap, ◌∙◌, false, Option, none,
  some, List, [], ◌∷◌, arith, done, bit_or, leb, get_elem?, ℕ_discrete,
}
use mathlib.Core.Path.{subst}
use vesper.Mmio.{Device}
use vesper.Plic.{uart0_irq, enable_hart0_m, priority, enable, set_priority, set_threshold}
use vesper.Plic.Enable.{bit, bit-enabled, enabled-fits, Enables, Priorities}
use vesper.Virtio.Device.{BlockDevice, irq, mmio_start, max_devices, configured_irqs}
use vesper.Boot.{let_through, let_all_through, route_uart, route_devices}

module _ {D : Type 0} (device : Device D) (word : D → ℕ) (prio : ℕ → D → ℕ) (threshold : D → ℕ)
    (enables : Enables device word) (priorities : Priorities device prio threshold) where
  -- The source is enabled, with priority 1.
  abbrev Live : ℕ → D → Type 0
  Live j d = (j < 32) × (bit j (word d) ≡ 1) × (prio j d ≡ 1)

  let_through-Live :
      (id : ℕ) (d : D)
      → 0 < id
      → id < 32
      → (d' : D) × (let_through device id d ≡ done d')
        × Live id d'
        × ((j : ℕ) → j ≢ id → Live j d → Live j d')
        × (threshold d' ≡ threshold d)
  unfolding enable set_priority
  let_through-Live id d pos lt =
      let inside : leb 32 id ≡ false = ground arith in
      let d₁ = (device.read enable_hart0_m d).1 in
      let prev = (device.read enable_hart0_m d).0 in
      let d₂ = device.write enable_hart0_m (bit_or prev (2 ^ id)) d₁ in
      let apart : priority + 4 * id ≢ enable_hart0_m = (λ e. omega arith) in
      let (own, rest) = bit-enabled id (word d) in
      let even : bit_or (word d) (2 ^ id) % 2 ≡ 0 =
        rest 0 (λ e. omega (arith, e)) ∙ enables.no_source d in
      let same_or = ap (λ w. bit_or w (2 ^ id)) (enables.reads d) in
      let same : word (device.write (priority + 4 * id) 1 d₂) ≡ bit_or (word d) (2 ^ id) =
        enables.others (priority + 4 * id) 1 d₂ apart
        ∙ enables.written (bit_or prev (2 ^ id)) d₁
            (omega (arith, same_or, enabled-fits id (word d) lt (enables.fits d)))
            (omega (arith, same_or, even))
        ∙ same_or in
      (
        device.write (priority + 4 * id) 1 d₂,
        rw inside refl,
        (lt, ap (bit id) same ∙ own, priorities.prio_written id 1 d₂ pos lt (omega arith)),
        λ j ne live.
            let (below, was, one) = live in
            (
              below,
              ap (bit j) same ∙ rest j ne ∙ was,
              priorities.prio_others j (priority + 4 * id) 1 d₂ below (λ e. ne (omega (arith, e)))
                  ∙ priorities.prio_others j enable_hart0_m (bit_or prev (2 ^ id)) d₁ below
                      (λ e. omega (arith, below, e))
                  ∙ priorities.prio_kept j d
                  ∙ one,
            ),
        priorities.threshold_others (priority + 4 * id) 1 d₂ (λ e. omega (arith, lt, e))
            ∙ priorities.threshold_others enable_hart0_m (bit_or prev (2 ^ id)) d₁
                (λ e. omega (arith, e))
            ∙ priorities.threshold_kept d,
      )

  -- Each of the sources, and none is shut out.
  record Through (irqs : List (Option ℕ)) (d d' : D) : Type 0 where
    own : (i j : ℕ) → get_elem? irqs i ≡ some (some j) → Live j d'
    kept : (j : ℕ) → Live j d → Live j d'
    open_to : threshold d' ≡ threshold d

  skip-Through :
      {irqs : List (Option ℕ)} {d d' : D} → Through irqs d d' → Through (none ∷ irqs) d d'
  skip-Through {irqs} {d} {d'} t = record { own = own; kept = t.kept; open_to = t.open_to }
    where
      own : (i j : ℕ) → get_elem? (none ∷ irqs) i ≡ some (some j) → Live j d'
      own zero j e = absurd (ground arith)
      own (suc i) j e = t.own i j e

  add-Through :
      {irqs : List (Option ℕ)} {d d₁ d' : D} (id : ℕ)
      → Live id d₁
      → ((j : ℕ) → j ≢ id → Live j d → Live j d₁)
      → threshold d₁ ≡ threshold d
      → Through irqs d₁ d'
      → Through (some id ∷ irqs) d d'
  add-Through {irqs} {d} {d₁} {d'} id live others same t = record {
    own = own;
    kept = λ j was. elim (ℕ_discrete j id) [
      | yes e ↦ t.kept j (subst (λ j. Live j d₁) (sym e) live)
      | no ne ↦ t.kept j (others j ne was)
    ];
    open_to = t.open_to ∙ same;
  }
    where
      own : (i j : ℕ) → get_elem? (some id ∷ irqs) i ≡ some (some j) → Live j d'
      own zero j e = let same : id ≡ j = ground arith in t.kept j (subst (λ j. Live j d₁) same live)
      own (suc i) j e = t.own i j e

  let_all_through-Live :
      (irqs : List (Option ℕ)) (d : D)
      → ((i j : ℕ) → get_elem? irqs i ≡ some (some j) → (0 < j) × (j < 32))
      → (d' : D) × (let_all_through device irqs d ≡ done d') × Through irqs d d'
  unfolding let_all_through
  let_all_through-Live [] d below =
      (d, refl, record { own = λ i j e. absurd (ground arith); kept = λ j e. e; open_to = refl })
  let_all_through-Live (none ∷ irqs) d below =
      let (d', ends, t) = let_all_through-Live irqs d (λ i j. below (suc i) j) in
      (d', ends, skip-Through t)
  let_all_through-Live (some irq ∷ irqs) d below =
      let (pos, lt) = below zero irq refl in
      let (d₁, one, live, others, same) = let_through-Live irq d pos lt in
      let (d', ends, t) = let_all_through-Live irqs d₁ (λ i j. below (suc i) j) in
      (d', rw one ends, add-Through irq live others same t)

  configured-some :
      (devices : List BlockDevice) (i j : ℕ)
      → get_elem? (configured_irqs devices) i ≡ some (some j)
      → (b : BlockDevice) × (get_elem? devices i ≡ some b) × (irq b ≡ some j)
  configured-some [] i j e = absurd (ground arith)
  configured-some (b ∷ bs) zero j e = (b, refl, cc)
  configured-some (b ∷ bs) (suc i) j e = configured-some bs i j e

  some-configured :
      (devices : List BlockDevice) (i j : ℕ) (b : BlockDevice)
      → get_elem? devices i ≡ some b
      → irq b ≡ some j
      → get_elem? (configured_irqs devices) i ≡ some (some j)
  some-configured [] i j b e at = absurd (ground arith)
  some-configured (c ∷ bs) zero j b e at = let same : c ≡ b = cc in ap some (ap irq same ∙ at)
  some-configured (c ∷ bs) (suc i) j b e at = some-configured bs i j b e at

  irq-below :
      (b : BlockDevice) (j : ℕ)
      → (b.dev ≢ 0 → (mmio_start ≤ b.dev) × (b.dev < mmio_start + 2 ^ 12 * max_devices))
      → irq b ≡ some j
      → (0 < j) × (j < 32)
  unfolding irq
  irq-below b j near e = elim (ℕ_discrete b.dev 0) [
    | yes no_device ↦ absurd (ground arith)
    | no device ↦ let (low, high) = near device in (ground arith, ground arith)
  ]

  -- With every block device that is configured at an address of the bus, over a controller whose enable word, priorities and
  -- threshold are registers: the set-up of `kinit` returns, and then the threshold is 0, and the
  -- UART's interrupt and that of every block device that is configured are enabled and have
  -- priority 1, which is above it.
  pub route_devices-through :
      (devices : List BlockDevice) (d : D)
      → ((i : ℕ) (b : BlockDevice)
          → get_elem? devices i ≡ some b
          → b.dev ≢ 0
          → (mmio_start ≤ b.dev) × (b.dev < mmio_start + 2 ^ 12 * max_devices))
      → (d₁ d' : D) × (route_uart device d ≡ done d₁)
        × (route_devices device devices d₁ ≡ done d')
        × (threshold d' ≡ 0)
        × (bit 10 (word d') ≡ 1)
        × (prio 10 d' ≡ 1)
        × ((i j : ℕ) (b : BlockDevice)
            → get_elem? devices i ≡ some b
            → irq b ≡ some j
            → (bit j (word d') ≡ 1) × (prio j d' ≡ 1))
  unfolding route_uart route_devices set_threshold
  route_devices-through devices d near =
      let (d₁, one, uart, _, same) =
        let_through-Live uart0_irq (set_threshold device 0 d) (omega arith) (omega arith) in
      let (d', ends, t) = let_all_through-Live (configured_irqs devices) d₁ (λ i j e.
        let (b, at, line) = configured-some devices i j e in irq-below b j (near i b at) line) in
      let (_, on, level) = t.kept uart0_irq uart in
      (
        d₁,
        d',
        one,
        ends,
        t.open_to ∙ same ∙ priorities.threshold_written 0 d (omega arith),
        on,
        level,
        λ i j b at line.
            let (_, set_bit, first) = t.own i j (some-configured devices i j b at line) in
            (set_bit, first),
      )
