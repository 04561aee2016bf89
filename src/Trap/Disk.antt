-- ===== src/Trap/Disk.antt =====
-- The interrupt of a block device in src/arch/riscv64/trap.rs, from the claim to the completion.
use vesper.Prelude.{
  ℕ, ◌+◌, ◌<◌, ◌≡◌, ◌≢◌, refl, sym, ap, ◌∙◌, false, some, none, List, ◌∷◌, arith, done, ◌==◌, ne→==,
  bit_and, get_or,
}
use vesper.Mmio.{Device}
use vesper.Minix.{Driver}
use vesper.Plic.{claim_hart0_m, uart0_irq}
use vesper.Plic.Context.{Context, Claims}
use vesper.Virtio.Device.{
  Shared, max_devices, irq_base, empty_device, interrupt_status, interrupt_ack,
}
use vesper.Virtio.Device.Idle.{IsIdle}
use vesper.Virtio.Device.Interrupt.{pending_by_irq-idle}
use vesper.Trap.{Machine, handle_external}

-- The two registers of the interrupt of the device at `ptr` are apart from the controller. The acknowledgement
-- lowers the line of its source `id`, so that the completion behind it leaves the sources that wait alone.
pub record DiskApart {D : Type 0} (device : Device D) (context : Context D) (ptr id : ℕ)
    : Type 0 where
  pub status_waiting :
      (d : D) → context.waiting (device.read (ptr + interrupt_status) d).1 ≡ context.waiting d
  pub status_serving :
      (d : D) → context.serving (device.read (ptr + interrupt_status) d).1 ≡ context.serving d
  pub ack_waiting :
      (v : ℕ) (d : D) → context.waiting (device.write (ptr + interrupt_ack) v d) ≡ context.waiting d
  pub lowered :
      (v : ℕ) (d : D)
      → context.waiting (device.write claim_hart0_m id (device.write (ptr + interrupt_ack) v d))
        ≡ context.waiting (device.write (ptr + interrupt_ack) v d)
  pub ack_serving :
      (v : ℕ) (d : D) → context.serving (device.write (ptr + interrupt_ack) v d) ≡ context.serving d

module _ {D : Type 0} (device : Device D) (shared : ℕ → Shared) (driver : Driver) (memory : ℕ → ℕ)
    (fuel : ℕ) (context : Context D) (claims : Claims device context) where
  -- If the interrupt of a slot is the one to be served next, where the slot's device is configured with an
  -- idle queue and says that it raised the interrupt, over a controller that behaves and that the
  -- device leaves alone, its line lowered by the acknowledgement: the handler returns with no report, the low two bits of the device's status
  -- are acknowledged to it, the interrupt is claimed and completed, the others wait as before, and of
  -- the machine only the devices change.
  pub handle_external-disk :
      (m : Machine D) (slot isr : ℕ) (ids : List ℕ) (d : D)
      → DiskApart device context (get_or m.block_devices slot empty_device).dev (irq_base + slot)
      → slot < max_devices
      → (get_or m.block_devices slot empty_device).dev ≢ 0
      → IsIdle (get_or m.block_devices slot empty_device) (shared slot)
      → context.waiting m.io ≡ (irq_base + slot) ∷ ids
      → device.read
          ((get_or m.block_devices slot empty_device).dev + interrupt_status)
          (device.read claim_hart0_m m.io).1
        ≡ (isr, d)
      → isr ≢ 0
      → (d' : D) × (handle_external device shared driver memory fuel m
          ≡ done (record m { io = d' }))
        × (d'
            ≡ device.write claim_hart0_m (irq_base + slot) (
                device.write
                  ((get_or m.block_devices slot empty_device).dev + interrupt_ack)
                  (bit_and isr 3)
                  d))
        × (context.waiting d' ≡ ids)
        × (context.serving d' ≡ none)
  unfolding handle_external
  handle_external-disk m slot isr ids d apart lt set_up idle asked status raised =
      let ptr = (get_or m.block_devices slot empty_device).dev in
      let (id, _, left, serving) = claims.source m.io (irq_base + slot) ids asked in
      let d₁ = (device.read claim_hart0_m m.io).1 in
      let d₂ = device.write (ptr + interrupt_ack) (bit_and isr 3) d in
      let after : (device.read (ptr + interrupt_status) d₁).1 ≡ d = ap (λ r. r.1) status in
      let is_served =
        pending_by_irq-idle device shared slot isr m.block_devices d₁ d lt set_up idle status
          raised in
      let serving₂ : context.serving d₂ ≡ some (irq_base + slot) =
        apart.ack_serving (bit_and isr 3) d
        ∙ ap context.serving (sym after)
        ∙ apart.status_serving d₁
        ∙ serving in
      let (rested, _) = claims.completion d₂ (irq_base + slot) serving₂ in
      let not_uart : (irq_base + slot == uart0_irq) ≡ false = ne→== _ _ (λ e. omega arith) in
      let claimed_some : (irq_base + slot == 0) ≡ false = ne→== _ _ (λ e. omega arith) in
      (
        device.write claim_hart0_m (irq_base + slot) d₂,
        rw id (rw (claimed_some, not_uart) (rw is_served refl)),
        refl,
        apart.lowered (bit_and isr 3) d
            ∙ apart.ack_waiting (bit_and isr 3) d
            ∙ ap context.waiting (sym after)
            ∙ apart.status_waiting d₁
            ∙ left,
        rested,
      )
