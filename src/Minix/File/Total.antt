-- ===== src/Minix/File/Total.antt =====
-- `read_file` (src/fs/minix3/fs.rs) as its callers see it, with the four buffers that it takes from the heap.
use vesper.Prelude.{
  ℕ, suc, ◌+◌, ◌-◌, ◌^◌, ◌<◌, ◌≡◌, refl, sym, ap, ◌∙◌, Option, List, arith, length, min, done, leb,
  ◌==◌, ne→==, false, ℕ_discrete,
}
use mathlib.Core.Path.{subst, fun_ext}
use vesper.PageFrame.{Heap}
use vesper.PageFrame.Ready.{IsReady}
use vesper.Minix.{Inode, FsResult, ok, Driver, block_size, with_buffer}
use vesper.Minix.Buffer.{with_buffer_lem}
use vesper.Minix.Fs.{Fs}
use vesper.Minix.File.{zone_block, wanted, read_zones, read_file}
use vesper.Minix.File.Content.{byte_at}
use vesper.Minix.File.Zones.{Readable}
use vesper.Minix.File.Read.{Holds, read_zones_lem, read_zones-heap}

module _ (driver : Driver) (fs : Fs) (inode : Inode) (offset : ℕ) (out : List ℕ) {n : ℕ} {h : Heap}
    (ready : IsReady (suc (suc (suc (suc n)))) h) where
  -- Inside the four buffers the heap has four pages less, and behind them it is restored.
  read_file-buffers :
      offset < inode.size
      → 0 < wanted inode offset out
      → (h' : Heap) × IsReady n h'
        × ((r : FsResult (ℕ × List ℕ))
            → read_zones driver fs inode offset out h' ≡ done (r, h')
            → read_file driver fs inode offset out h ≡ done (r, h))
  unfolding read_file
  read_file-buffers inside some_wanted =
      let body = read_zones driver fs inode offset out in
      let (h₁, ready₁, back₁) =
        with_buffer_lem
          (with_buffer block_size (with_buffer block_size (with_buffer block_size body))) ready in
      let (h₂, ready₂, back₂) =
        with_buffer_lem (with_buffer block_size (with_buffer block_size body)) ready₁ in
      let (h₃, ready₃, back₃) = with_buffer_lem (with_buffer block_size body) ready₂ in
      let (h₄, ready₄, back₄) = with_buffer_lem body ready₃ in
      let early : leb inode.size offset ≡ false = ground arith in
      let empty : (wanted inode offset out == 0) ≡ false = ne→== _ _ (omega arith) in
      (h₄, ready₄, λ r e. rw (early, empty) (back₁ r (back₂ r (back₃ r (back₄ r e)))))

  read_file-nothing :
      wanted inode offset out ≡ 0 → read_file driver fs inode offset out h ≡ done (ok (0, out), h)
  unfolding read_file
  read_file-nothing none_wanted = ground arith

  -- With four pages to spare, `read_file` gives a result or an error on the heap that it began with, or it is a
  -- fault, behind which the program is not described.
  pub read_file-heap :
      (r : FsResult (ℕ × List ℕ)) × (read_file driver fs inode offset out h ≡ done (r, h))
  read_file-heap = elim (ℕ_discrete (wanted inode offset out) 0) [
    | yes e ↦ (ok (0, out), read_file-nothing e)
    | no some_wanted ↦
        let (h', _, back) = read_file-buffers (omega arith) (omega arith) in
        let (r, e) = read_zones-heap driver fs inode offset out h' in (r, back r e)
  ]

-- With five pages to spare, a size and a slice below 2^32 bytes, over a driver that serves a disk's
-- blocks while a page is left for its request, and where every block read is whole and every byte
-- of the file up to the window's end is there: `read_file` returns the number of bytes that are
-- both asked for and in the file. The slice then holds those bytes of the file from the offset on
-- and is unchanged behind them, and the heap is restored.
pub read_file_lem :
    (driver : Driver) (fs : Fs) (disk : ℕ → Option (List ℕ)) (inode : Inode) (offset : ℕ)
    (out : List ℕ) (h : Heap)
    → length inode.zones ≡ 10
    → inode.size < 2 ^ 32
    → length out < 2 ^ 32
    → IsReady 5 h
    → ((h' : Heap) (zone : ℕ) → IsReady 1 h' → zone_block driver fs h' zone ≡ disk zone)
    → Readable disk inode offset (offset + min (length out) (inode.size - offset)) out
    → (out' : List ℕ) × (read_file driver fs inode offset out h
        ≡ done (ok (min (length out) (inode.size - offset), out'), h))
      × Holds (byte_at disk inode) offset (min (length out) (inode.size - offset)) out out'
read_file_lem driver fs disk inode offset out h ten small fits ready serves readable =
    let count : wanted inode offset out ≡ min (length out) (inode.size - offset) = omega arith in
    subst
      (λ k.
        (out' : List ℕ) × (read_file driver fs inode offset out h ≡ done (ok (k, out'), h))
        × Holds (byte_at disk inode) offset k out out')
      count
      (elim (ℕ_discrete (wanted inode offset out) 0) [
        | yes e ↦ (
          out,
          read_file-nothing driver fs inode offset out ready e
              ∙ ap (λ k. done (ok (k, out), h)) (sym e),
          record { size = refl; copied = λ i lt. absurd (omega arith); rest = λ i le. refl },
        )
        | no some_wanted ↦
            let (h', ready', back) =
              read_file-buffers driver fs inode offset out ready (omega arith) (omega arith) in
            let same : zone_block driver fs h' ≡ disk = fun_ext (λ z. serves h' z ready') in
            let readable' : Readable (zone_block driver fs h') inode offset
                (offset + wanted inode offset out) out =
              subst (λ b. Readable b inode offset (offset + wanted inode offset out) out) (sym same)
                (subst (λ k. Readable disk inode offset (offset + k) out) (sym count) readable) in
            let (out', e, holds) =
              read_zones_lem driver fs inode offset out h' ten small (omega arith) (omega arith)
                readable' in
            (
              out',
              back (ok (wanted inode offset out, out')) e,
              subst (λ b. Holds (byte_at b inode) offset (wanted inode offset out) out out') same
                  holds,
            )
      ])
