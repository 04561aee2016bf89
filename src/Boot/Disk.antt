-- ===== src/Boot/Disk.antt =====
-- The read of the first disk in `skmain` of src/boot/entry.rs. What is printed is the result.
mod Tests
use vesper.Prelude.{
  ℕ, zero, suc, ◌+◌, ◌*◌, Bool, true, false, Option, none, some, List, [], ◌∷◌, Outcome, done,
  ◌>>=◌,
}
use vesper.PageFrame.{Heap, allocate, deallocate}
use vesper.Virtio.Device.{BlockDevice, Hardware, World, Shared, first_block_device, block_read}

-- The first bytes of the disk, or why there are none.
pub data ReadTest : Type 0 where
  bytes_read : List ℕ → ReadTest
  read_failed : ReadTest
  no_buffer : ReadTest
  no_disk : ReadTest

-- `ptr.add(i).read()` for the `n` bytes from `p` on.
unfoldable pub bytes_from : Shared → ℕ → ℕ → List ℕ
bytes_from shared p zero = []
bytes_from shared p (suc n) = shared.bytes p ∷ bytes_from shared (p + 1) n

abbrev pub read_report : ℕ → Bool → Shared → ReadTest
read_report p true shared = bytes_read (bytes_from shared p 48)
read_report p false shared = read_failed

module _ {E : Type 0} (hardware : Hardware E) (fuel : ℕ) where
  abbrev pub close_read :
      ℕ → Bool × List BlockDevice × World E → Outcome (ReadTest × List BlockDevice × World E)
  close_read p (ok, devices, w) =
      deallocate p w.heap >>= λ h. done (read_report p ok w.shared, devices, record w { heap = h })

  -- `block_read(dev, ptr, 512, 0)`
  abbrev pub read_into :
      ℕ
      → List BlockDevice
      → World E
      → Option ℕ × Heap
      → Outcome (ReadTest × List BlockDevice × World E)
  read_into dev devices w (none, h) = done (no_buffer, devices, record w { heap = h })
  read_into dev devices w (some p, h) =
      block_read hardware fuel dev p 512 0 devices (record w { heap = h }) >>= close_read p

  abbrev pub read_first :
      List BlockDevice → World E → Option ℕ → Outcome (ReadTest × List BlockDevice × World E)
  read_first devices w none = done (no_disk, devices, w)
  read_first devices w (some dev) = allocate 1 w.heap >>= read_into dev devices w

  unfoldable pub test_read :
      List BlockDevice → World E → Outcome (ReadTest × List BlockDevice × World E)
  unfolding allocate block_read deallocate bytes_from
  test_read devices w = read_first devices w (first_block_device devices)
