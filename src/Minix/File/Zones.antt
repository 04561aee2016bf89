-- ===== src/Minix/File/Zones.antt =====
-- The loop of `read_file` (src/fs/minix3/fs.rs) over a block of zone numbers, on a file without holes.
use vesper.Prelude.{
  ℕ, ◌+◌, ◌*◌, ◌/◌, ◌%◌, ◌<◌, ◌≤◌, ◌≡◌, ◌≢◌, sym, ap, ◌∙◌, Option, some, List, arith, max, length,
  get_elem?, Option-cases, option_bind, ℕ_discrete, inl, inr,
}
use vesper.Minix.{Inode, block_size}
use vesper.Minix.File.{Cursor, Walk, more, stop, failed, faulted, skip_bytes, and_then}
use vesper.Minix.File.Content.{zone_at, byte_at, byte_in}

-- What the walk of one call may rely on: blocks are whole, the window fits into the slice, and every
-- byte up to the window's end is there.
pub record Readable (block : ℕ → Option (List ℕ)) (inode : Inode) (offset end : ℕ) (out : List ℕ)
    : Type 0 where
  pub sized : (z : ℕ) (b : List ℕ) → block z ≡ some b → length b ≡ block_size
  pub fits : end ≤ offset + length out
  pub mapped : (p : ℕ) → p < end → (v : ℕ) × (byte_at block inode p ≡ some v)

-- Block `k` of the file, as the walk needs it.
pub record Present (block : ℕ → Option (List ℕ)) (inode : Inode) (k : ℕ) : Type 0 where
  pub zone : ℕ
  pub bytes : List ℕ
  pub here : zone_at block inode k ≡ some zone
  pub nonzero : zone ≢ 0
  pub read : block zone ≡ some bytes
  pub same : (j : ℕ) → j < block_size → byte_at block inode (k * block_size + j) ≡ get_elem? bytes j

byte_at-block :
    (block : ℕ → Option (List ℕ)) (inode : Inode) (k j : ℕ)
    → j < block_size
    → byte_at block inode (k * block_size + j)
      ≡ option_bind (zone_at block inode k) (byte_in block j)
unfolding byte_at
byte_at-block block inode k j lt =
    let q : (k * block_size + j) / block_size ≡ k = omega arith in
    let r : (k * block_size + j) % block_size ≡ j = omega arith in rw (q, r)

byte_in-present :
    (block : ℕ → Option (List ℕ)) (i z v : ℕ)
    → byte_in block i z ≡ some v
    → (z ≢ 0) × (b : List ℕ) × (block z ≡ some b) × ((j : ℕ) → byte_in block j z ≡ get_elem? b j)
byte_in-present block i z v e = elim (ℕ_discrete z 0) [
  | yes missing ↦ ground arith
  | no nonzero ↦ elim (Option-cases (block z)) [
    | inl unread ↦ ground arith
    | inr (b, read) ↦ (nonzero, b, read, λ j. ground arith)
  ]
]

pub present :
    (block : ℕ → Option (List ℕ)) (inode : Inode) (k v : ℕ)
    → byte_at block inode (k * block_size + 0) ≡ some v
    → Present block inode k
present block inode k v e =
    let e' = sym (byte_at-block block inode k 0 (omega arith)) ∙ e in
    elim (Option-cases (zone_at block inode k)) [
      | inl missing ↦ absurd (cc (ap (λ o. option_bind o (byte_in block 0)) missing))
      | inr (z, here) ↦
          let found = ap (λ o. option_bind o (byte_in block 0)) (sym here) ∙ e' in
          let (nonzero, b, read, bytes) = byte_in-present block 0 z v found in
          record {
            zone = z;
            bytes = b;
            here = here;
            nonzero = nonzero;
            read = read;
            same = λ j lt.
                byte_at-block block inode k j lt
                ∙ ap (λ o. option_bind o (byte_in block j)) here
                ∙ bytes j;
          }
    ]

-- The cursor has copied what stands between the window's start and `cur_offset`, and no more.
pub record Filled (bytes : ℕ → Option ℕ) (offset : ℕ) (out : List ℕ) (c : Cursor) : Type 0 where
  pub count : c.cur_offset ≡ offset + c.written
  pub size : length c.out ≡ length out
  pub copied : (i : ℕ) → i < c.written → get_elem? c.out i ≡ bytes (offset + i)
  pub rest : (i : ℕ) → c.written ≤ i → get_elem? c.out i ≡ get_elem? out i

-- The walk goes on at block `k`.
pub record At (bytes : ℕ → Option ℕ) (offset end : ℕ) (out : List ℕ) (k : ℕ) (c : Cursor)
    : Type 0 where
  pub filled : Filled bytes offset out c
  pub live : c.cur_offset < end
  pub place : c.logical ≡ k * block_size
  pub pos : c.cur_offset ≡ max offset c.logical

-- The walk may go on at block `k`, or it has returned with the window filled.
abbrev pub Good : (ℕ → Option ℕ) → ℕ → ℕ → List ℕ → ℕ → Walk → Type 0
Good bytes offset end out k (more c) = At bytes offset end out k c
Good bytes offset end out k (stop c) = Filled bytes offset out c × (c.cur_offset ≡ end)
Good bytes offset end out k _ = ⊥

pub Filled-skip_bytes :
    {bytes : ℕ → Option ℕ} {offset : ℕ} {out : List ℕ} {c : Cursor} (n : ℕ)
    → Filled bytes offset out c
    → Filled bytes offset out (skip_bytes n c)
Filled-skip_bytes n f = record { count = f.count; size = f.size; copied = f.copied; rest = f.rest }

-- What holds of a part of the walk and of the rest holds of both.
pub and_then-Good :
    (bytes : ℕ → Option ℕ) (offset end : ℕ) (out : List ℕ) (k l : ℕ) (w : Walk) (f : Cursor → Walk)
    → Good bytes offset end out k w
    → ((c : Cursor) → At bytes offset end out k c → Good bytes offset end out l (f c))
    → Good bytes offset end out l (and_then w f)
and_then-Good bytes offset end out k l (more c) f g h = h c g
and_then-Good bytes offset end out k l (stop c) f g h = g
and_then-Good bytes offset end out k l (failed e) f g h = absurd g
and_then-Good bytes offset end out k l faulted f g h = absurd g
