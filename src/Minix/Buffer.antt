-- ===== src/Minix/Buffer.antt =====
-- `Buffer` of src/fs/minix3/blocks.rs and its `drop`, around the code that holds it.
use vesper.Prelude.{ℕ, suc, ◌≡◌, ap, ◌∙◌, done, ◌>>=◌}
use vesper.PageFrame.{Heap}
use vesper.PageFrame.Ready.{IsReady, allocate-IsReady}
use vesper.Minix.{FsResult, Fallible, block_size, use_buffer, drop_buffer, with_buffer}

-- With a page to spare the body runs on a heap with one page less. If it leaves that heap as it found
-- it, with a value or with an error, the heap is restored and the body's result is passed on.
pub with_buffer_lem :
    {A : Type 0} {n : ℕ} {h : Heap} (body : Fallible A)
    → IsReady (suc n) h
    → (h' : Heap) × IsReady n h'
      × ((r : FsResult A) → body h' ≡ done (r, h') → with_buffer block_size body h ≡ done (r, h))
unfolding with_buffer
with_buffer_lem {h = h} body ready =
    let (p, h', got, ready', back) = allocate-IsReady ready in
    (
      h',
      ready',
      λ r e.
          ap (λ m. m >>= use_buffer body) got
          ∙ ap (λ m. m >>= drop_buffer p) e
          ∙ ap (λ m. m >>= λ g. done (r, g)) back,
    )
