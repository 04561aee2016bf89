-- ===== src/Boot/Disk/Tests.antt =====
-- The test read of src/boot/entry.rs from the second slot.
use vesper.Prelude.{◌≡◌, refl, [], ◌∷◌, done}
use vesper.Virtio.Device.{empty_device, first_device}
use vesper.Virtio.Device.Sample.{hardware, shared, world}
use vesper.Boot.Disk.{no_disk, test_read, bytes_from}

no_disk_run :
    test_read hardware 2 (empty_device ∷ []) world ≡ done (no_disk, empty_device ∷ [], world)
unfolding test_read first_device
no_disk_run = refl

bytes_run : bytes_from shared 0x9000 3 ≡ 0 ∷ 0 ∷ 0 ∷ []
unfolding bytes_from
bytes_run = refl
