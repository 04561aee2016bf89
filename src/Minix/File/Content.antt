-- ===== src/Minix/File/Content.antt =====
-- What a file of src/fs/minix3 holds: the zone of each block and the byte at each offset, by arithmetic on
-- the block's number and independent of the order in which `read_file` walks.
use vesper.Prelude.{
  ℕ, ◌+◌, ◌-◌, ◌*◌, ◌/◌, ◌%◌, Option, none, List, ◌==◌, ltb, if◌then◌else◌, option_bind, get_elem?,
  get_or,
}
use mathlib.Core.Option
use vesper.Bytes.{u32_at}
use vesper.Minix.{Inode, block_size, num_direct_zones, indirect_ptrs_per_block}

-- The numbers of blocks that the direct zones, and those up to the single and double indirect ones, hold.
abbrev pub single_base : ℕ
single_base = num_direct_zones

abbrev pub double_base : ℕ
double_base = single_base + indirect_ptrs_per_block

abbrev pub triple_base : ℕ
triple_base = double_base + indirect_ptrs_per_block * indirect_ptrs_per_block

abbrev pub capacity : ℕ
capacity = triple_base + indirect_ptrs_per_block * indirect_ptrs_per_block * indirect_ptrs_per_block

module _ (block : ℕ → Option (List ℕ)) where
  -- Entry `i` of the indirect block in zone `z`; there is none if the zone is missing.
  abbrev pub pointer : ℕ → ℕ → Option ℕ
  pointer z i = if z == 0 then none else Option.map (λ b. u32_at b (i * 4)) (block z)

  abbrev pub pointer_2 : ℕ → ℕ → Option ℕ
  pointer_2 z i =
      option_bind (pointer z (i / indirect_ptrs_per_block))
        λ d. pointer d (i % indirect_ptrs_per_block)

  abbrev pub pointer_3 : ℕ → ℕ → Option ℕ
  pointer_3 z i =
      option_bind (pointer z (i / (indirect_ptrs_per_block * indirect_ptrs_per_block)))
        λ d. pointer_2 d (i % (indirect_ptrs_per_block * indirect_ptrs_per_block))

  -- The zone of block `k` of the file.
  unfoldable pub zone_at : Inode → ℕ → Option ℕ
  zone_at inode k =
      if ltb k single_base
      then get_elem? inode.zones k
      else if ltb k double_base
      then pointer (get_or inode.zones 7 0) (k - single_base)
      else if ltb k triple_base
      then pointer_2 (get_or inode.zones 8 0) (k - double_base)
      else pointer_3 (get_or inode.zones 9 0) (k - triple_base)

  abbrev pub byte_in : ℕ → ℕ → Option ℕ
  byte_in i z = if z == 0 then none else option_bind (block z) λ b. get_elem? b i

  -- The byte at offset `p`, if its block is there and can be read.
  unfoldable pub byte_at : Inode → ℕ → Option ℕ
  byte_at inode p = option_bind (zone_at inode (p / block_size)) (byte_in (p % block_size))
