-- ===== src/Virtio/Device/Interrupt.antt =====
-- The interrupt of a block device, in src/drivers/virtio/device.rs, when the request was already seen by the poll.
use vesper.Prelude.{
  ℕ, ◌+◌, ◌-◌, ◌<◌, ◌≡◌, ◌≢◌, refl, true, false, List, arith, done, ne→==, get_or, leb, ltb,
  bit_and,
}
use vesper.Mmio.{Device}
use vesper.Virtio.Device.{
  BlockDevice, Shared, interrupt_status, interrupt_ack, irq_base, max_devices, empty_device,
  pending_by_irq,
}
use vesper.Virtio.Device.Idle.{IsIdle}
use vesper.Virtio.Device.Poll.{pending-acked}
use vesper.Virtio.Device.Refuse.{set-get_or}

-- The interrupt of a slot whose device is configured and whose queue is idle, where the status of the
-- interrupt reads as `isr`, not 0: it is handled, the low two bits of the status are acknowledged to
-- the device, and no slot changes.
pub pending_by_irq-idle :
    {D : Type 0} (regs : Device D) (shared : ℕ → Shared) (slot isr : ℕ) (devices : List BlockDevice)
    (d d' : D)
    → slot < max_devices
    → (get_or devices slot empty_device).dev ≢ 0
    → IsIdle (get_or devices slot empty_device) (shared slot)
    → regs.read ((get_or devices slot empty_device).dev + interrupt_status) d ≡ (isr, d')
    → isr ≢ 0
    → pending_by_irq regs shared (irq_base + slot) devices d
      ≡ done (
        true,
        devices,
        regs.write ((get_or devices slot empty_device).dev + interrupt_ack) (bit_and isr 3) d',
      )
unfolding pending_by_irq
pending_by_irq-idle regs shared slot isr devices d d' lt set_up idle status raised =
    let b = get_or devices slot empty_device in
    let same : irq_base + slot - irq_base ≡ slot = omega arith in
    let low : ltb (irq_base + slot) irq_base ≡ false = ground arith in
    let inside : leb max_devices slot ≡ false = ground arith in
    rw (low, same, inside, status)
      (rw (ne→== _ _ set_up, ne→== _ _ raised, pending-acked (shared slot) b idle.acked idle.small)
        (rw (set-get_or devices slot) refl))
