-- ===== src/Boot/Tests.antt =====
-- The set-up of src/boot/entry.rs over a controller whose enable word is a register, with one block device.
use vesper.Prelude.{
  ℕ, ◌+◌, ◌*◌, ◌%◌, ◌^◌, ◌≡◌, ◌<◌, ◌≤◌, refl, ap, Option, none, some, List, [], ◌∷◌, arith, done,
  ◌==◌, if◌then◌else◌, get_elem?, ne→==, ==_iff, zero, suc, ◌/◌, ◌≢◌, sym, Bool-cases, inl, inr,
}
use vesper.Mmio.{Device}
use vesper.Sv39.{Space}
use vesper.Plic.{enable_hart0_m}
use vesper.Plic.Enable.{bit, Enables, Priorities}
use vesper.Virtio.Device.{BlockDevice, empty_device, mmio_start, max_devices, irq}
use vesper.Boot.{make_satp_sv39, route_uart, route_devices}
use vesper.Boot.Route.{route_devices-through}

-- The word of the enabled sources, the priorities by their addresses, and the threshold.
record Board : Type 0 where
  enabled : ℕ
  priorities : ℕ → ℕ
  threshold : ℕ

-- The word, cut to 32 bits, without its lowest.
abbrev word : Board → ℕ
word b = b.enabled % 2 ^ 32 / 2 * 2

abbrev prio : ℕ → Board → ℕ
prio id b = b.priorities (0x0c00_0000 + 4 * id)

abbrev stored : ℕ → ℕ → Board → Board
stored a v b =
    if a == enable_hart0_m
    then record b { enabled = v }
    else if a == 0x0c20_0000
    then record b { threshold = v }
    else record b { priorities = λ x. if x == a then v else b.priorities x }

abbrev controller : Device Board
controller = record { read = λ a b. (word b, b); write = stored }

abbrev board : Board
board = record { enabled = 0; priorities = λ a. 0; threshold = 7 }

controller-Enables : Enables controller word
controller-Enables = record {
  reads = λ b. refl;
  kept = λ b. refl;
  fits = λ b. omega arith;
  no_source = λ b. omega arith;
  written = λ v b lt even. omega arith;
  others = λ a v b ne. others a v b ne;
}
  where
    others : (a v : ℕ) (b : Board) → a ≢ enable_hart0_m → word (stored a v b) ≡ word b
    others a v b ne = elim (Bool-cases (a == 0x0c20_0000)) [
      | inl is ↦ rw (ne→== a enable_hart0_m ne, is) refl
      | inr other ↦ rw (ne→== a enable_hart0_m ne, other) refl
    ]

controller-Priorities : Priorities controller prio (λ b. b.threshold)
controller-Priorities = record {
  prio_written = λ id v b pos lt small. prio_written id v b lt;
  prio_others = λ id a v b lt ne. prio_others id a v b ne;
  prio_kept = λ id b. refl;
  threshold_written = λ v b lt. refl;
  threshold_others = λ a v b ne. threshold_others a v b ne;
  threshold_kept = λ b. refl;
}
  where
    prio_written :
        (id v : ℕ) (b : Board) → id < 32 → prio id (stored (0x0c00_0000 + 4 * id) v b) ≡ v
    prio_written id v b lt =
        let a = 0x0c00_0000 + 4 * id in
        rw
          (
            ne→== a enable_hart0_m (λ e. omega (arith, lt, e)),
            ne→== a 0x0c20_0000 (λ e. omega (arith, lt, e)),
            (==_iff a a).1 refl,
          )
          refl

    prio_others :
        (id a v : ℕ) (b : Board) → a ≢ 0x0c00_0000 + 4 * id → prio id (stored a v b) ≡ prio id b
    prio_others id a v b ne = elim (Bool-cases (a == enable_hart0_m)) [
      | inl is ↦ rw is refl
      | inr other ↦ elim (Bool-cases (a == 0x0c20_0000)) [
        | inl is ↦ rw (other, is) refl
        | inr rest ↦ rw (other, rest, ne→== (0x0c00_0000 + 4 * id) a (λ e. ne (sym e))) refl
      ]
    ]

    threshold_others :
        (a v : ℕ) (b : Board) → a ≢ 0x0c20_0000 → (stored a v b).threshold ≡ b.threshold
    threshold_others a v b ne = elim (Bool-cases (a == enable_hart0_m)) [
      | inl is ↦ rw is refl
      | inr other ↦ rw (other, ne→== a 0x0c20_0000 ne) refl
    ]

abbrev devices : List BlockDevice
devices = empty_device ∷ record empty_device { dev = mmio_start + 0x1000 } ∷ []

abbrev dev_of : Option BlockDevice → ℕ
dev_of none = 0
dev_of (some b) = b.dev

devices_near :
    (i : ℕ) (b : BlockDevice)
    → get_elem? devices i ≡ some b
    → b.dev ≢ 0
    → (mmio_start ≤ b.dev) × (b.dev < mmio_start + 2 ^ 12 * max_devices)
devices_near zero b e device = absurd (device (sym (ap dev_of e)))
devices_near (suc zero) b e device = (omega (arith, ap dev_of e), omega (arith, ap dev_of e))
devices_near (suc (suc i)) b e device = absurd (cc)

route_devices-through_example :
    (d₁ d' : Board) × (route_uart controller board ≡ done d₁)
    × (route_devices controller devices d₁ ≡ done d')
    × (d'.threshold ≡ 0)
    × (bit 10 (word d') ≡ 1)
    × (prio 10 d' ≡ 1)
    × ((i j : ℕ) (b : BlockDevice)
        → get_elem? devices i ≡ some b
        → irq b ≡ some j
        → (bit j (word d') ≡ 1) × (prio j d' ≡ 1))
route_devices-through_example =
    route_devices-through controller word prio (λ b. b.threshold) controller-Enables
      controller-Priorities devices board devices_near

abbrev space : Space
space = record {
  mem = λ a. 0;
  heap = record { heap_start = 0; heap_size = 0; alloc_start = 0; table = [] };
}

satp_run : make_satp_sv39 0x8010_0000 ≡ 8 * 2 ^ 60 + 0x8_0100
unfolding make_satp_sv39
satp_run = refl
