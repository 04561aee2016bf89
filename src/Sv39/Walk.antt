-- ===== src/Sv39/Walk.antt =====
-- `map` and then `v2p` of src/mm/paging/sv39/map.rs, where the tables on the way are there already.
use vesper.Prelude.{
  ℕ, zero, suc, ◌+◌, ◌*◌, ◌/◌, ◌%◌, ◌^◌, ◌<◌, ◌≤◌, ◌≡◌, ◌≢◌, refl, ap, ◌∙◌, bit_and, true, false,
  some, List, [], ◌∷◌, arith, ne→==, done, ◌>>=◌,
}
use vesper.PageFrame.{Memory}
use vesper.Sv39.PteFlags
use vesper.Sv39.{
  Space, is_valid, is_invalid, is_leaf, leaf, leaf_addr, vpn, entry_addr, pte_to_addr, write_word,
  ensure_table, next_entry, descend, levels, map, resolve, v2p,
}
use vesper.Sv39.Leaf.{leaf-is_valid, leaf-is_leaf, leaf_size, leaf_addr-leaf}

abbrev pub next : Memory → ℕ → ℕ → ℕ → ℕ
next mem vaddr i v = entry_addr (pte_to_addr (mem v)) (vpn vaddr i)

-- Every entry from the one at `v` down the levels points at a table, and the last of these tables has
-- the entry at `target`, which is none of those before it.
abbrev pub Leads : Memory → ℕ → ℕ → List ℕ → ℕ → Type 0
Leads mem vaddr target [] v = v ≡ target
Leads mem vaddr target (i ∷ is) v =
    (is_valid (mem v) ≡ true)
    × (is_leaf (mem v) ≡ false)
    × (v ≢ target)
    × (next mem vaddr i v ≢ 0)
    × Leads mem vaddr target is (next mem vaddr i v)

pub write_word-same : (mem : Memory) (at e : ℕ) → write_word at e mem at ≡ e
write_word-same mem at e = ground arith

pub write_word-other : (mem : Memory) (at e v : ℕ) → v ≢ at → write_word at e mem v ≡ mem v
write_word-other mem at e v ne = rw (ne→== v at ne)

pub ensure_table-valid : (v : ℕ) (s : Space) → is_valid (s.mem v) ≡ true → ensure_table v s ≡ done s
unfolding ensure_table is_invalid
ensure_table-valid v s ok = rw ok

descend-Leads :
    (vaddr target : ℕ) (is : List ℕ) (v : ℕ) (s : Space)
    → Leads s.mem vaddr target is v
    → descend vaddr is v s ≡ done (target, s)
unfolding descend
descend-Leads vaddr target [] v s here = ap (λ t. done (t, s)) here
descend-Leads vaddr target (i ∷ is) v s (ok, branch, ne, there, more) =
    let step : next_entry vaddr i v s ≡ done (next s.mem vaddr i v, s) =
      rw (ne→== (next s.mem vaddr i v) 0 there) in
    rw (ensure_table-valid v s ok, step)
      (descend-Leads vaddr target is (next s.mem vaddr i v) s more)

module _ (mem : Memory) (vaddr target e : ℕ) (ok : is_valid e ≡ true)
    (final : is_leaf e ≡ true) where
  pub resolve-target :
      (i : ℕ) → resolve (write_word target e mem) vaddr i target ≡ done (some (leaf_addr i vaddr e))
  unfolding resolve is_invalid
  resolve-target zero = rw (write_word-same mem target e, ok, final)
  resolve-target (suc i) = rw (write_word-same mem target e, ok, final)

  -- One level further down.
  resolve-next :
      (i v : ℕ)
      → is_valid (mem v) ≡ true
      → is_leaf (mem v) ≡ false
      → v ≢ target
      → next mem vaddr i v ≢ 0
      → resolve (write_word target e mem) vaddr (suc i) v
        ≡ resolve (write_word target e mem) vaddr i (next mem vaddr i v)
  unfolding resolve is_invalid
  resolve-next i v valid branch ne there =
      rw (write_word-other mem target e v ne, valid, branch, ne→== (next mem vaddr i v) 0 there)

  resolve-Leads :
      (level v : ℕ)
      → level ≤ 2
      → Leads mem vaddr target (levels level) v
      → resolve (write_word target e mem) vaddr 2 v ≡ done (some (leaf_addr level vaddr e))
  resolve-Leads zero v le (ok_2, branch_2, ne_2, there_2, (ok_1, branch_1, ne_1, there_1, here)) =
      resolve-next 1 v ok_2 branch_2 ne_2 there_2
      ∙ resolve-next 0 (next mem vaddr 1 v) ok_1 branch_1 ne_1 there_1
      ∙ ap (resolve (write_word target e mem) vaddr 0) here
      ∙ resolve-target 0
  resolve-Leads (suc zero) v le (ok_2, branch_2, ne_2, there_2, here) =
      resolve-next 1 v ok_2 branch_2 ne_2 there_2
      ∙ ap (resolve (write_word target e mem) vaddr 1) here
      ∙ resolve-target 1
  resolve-Leads (suc (suc zero)) v le here =
      ap (resolve (write_word target e mem) vaddr 2) here ∙ resolve-target 2
  resolve-Leads (suc (suc (suc level))) v le here = absurd (omega arith)

-- `map` with flags of ten bits, among them a permission, over tables that are there, at any of the three
-- levels: it returns, takes no page, writes one entry, and the address then resolves to the frame of
-- `paddr` at that level, of whose address 56 bits count, with the offset of `vaddr`.
pub v2p-map :
    (root vaddr paddr bits level target : ℕ) (s : Space)
    → level ≤ 2
    → bits < 2 ^ 10
    → bit_and bits PteFlags.rwx ≢ 0
    → Leads s.mem vaddr target (levels level) (entry_addr root (vpn vaddr 2))
    → (s' : Space) × (map root vaddr paddr bits level s ≡ done s')
      × (s'.heap ≡ s.heap)
      × ((a : ℕ) → a ≢ target → s'.mem a ≡ s.mem a)
      × (v2p s'.mem root vaddr
          ≡ done
              (some (paddr % 2 ^ 56 / leaf_size level * leaf_size level + vaddr % leaf_size level)))
unfolding map v2p
v2p-map root vaddr paddr bits level target s le small some_rwx leads =
    let e = leaf paddr bits in
    let s' : Space = record s { mem = write_word target e s.mem } in
    (
      s',
      rw (ne→== _ _ some_rwx) (
          ap (λ m. m >>= λ r. let (v, s₁) = r in done (record s₁ { mem = write_word v e (s₁.mem) }))
            (descend-Leads vaddr target (levels level) (entry_addr root (vpn vaddr 2)) s leads)),
      refl,
      λ a ne. write_word-other s.mem target e a ne,
      resolve-Leads s.mem vaddr target e (leaf-is_valid paddr bits small)
            (leaf-is_leaf paddr bits small some_rwx) level (entry_addr root (vpn vaddr 2)) le leads
          ∙ ap (λ a. done (some a)) (leaf_addr-leaf level paddr bits vaddr small le),
    )
