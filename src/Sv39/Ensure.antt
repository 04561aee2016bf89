-- ===== src/Sv39/Ensure.antt =====
-- The step of `map` of src/mm/paging/sv39/map.rs from a table to the one below it, which is there or is allocated.
use vesper.Prelude.{
  ℕ, suc, ◌<◌, ◌≡◌, ◌≢◌, refl, sym, ap, ◌∙◌, Bool, true, false, Option, none, some, arith,
  Bool-cases, Option-cases, inl, inr, ◌⊎◌, done, map_done,
}
use vesper.PageFrame.{Heap, Memory, fill_zero, zero_pages, allocate, zallocate}
use vesper.PageFrame.Ready.{IsReady, weaken-IsReady}
use vesper.PageFrame.Fresh.{allocate-IsHeld}
use vesper.Sv39.{Space, table_len, is_valid, is_invalid, write_word, ensure_table}
use vesper.Sv39.Pointer.{pointer, pointer-is_valid}
use vesper.Sv39.Tree.{Node, depth, below, slot, IsTree, IsFrame, held-IsFrame, slot-inj}
use vesper.Sv39.Link.{IsLinked, tagged-IsFrame, tag_new}
use vesper.Sv39.Grown.{Grown, Grown-refl}
use vesper.Sv39.Grow.{Grown-link}
use vesper.Sv39.Walk.{write_word-same, write_word-other, ensure_table-valid}

pub zallocate-done :
    (mem : Memory) (h : Heap) {c : ℕ} {h' : Heap}
    → allocate 1 h ≡ done (some c, h')
    → zallocate 1 mem h ≡ done (some c, fill_zero c 512 mem, h')
unfolding zallocate
zallocate-done mem h got = ap (map_done (zero_pages 1 mem)) got

-- The memory with a new table at `c` behind the entry at `v`.
abbrev with_table : ℕ → ℕ → Memory → Memory
with_table v c mem = write_word v (pointer c) (fill_zero c 512 mem)

pub fill_zero-inside : (c j : ℕ) (mem : Memory) → j < table_len → fill_zero c 512 mem (slot c j) ≡ 0
fill_zero-inside c j mem lj = ground arith

fill_zero-outside :
    {c q : ℕ} (j : ℕ) (mem : Memory)
    → IsFrame c
    → IsFrame q
    → q ≢ c
    → j < table_len
    → fill_zero c 512 mem (slot q j) ≡ mem (slot q j)
fill_zero-outside {c} {q} j mem f g ne lj = ground (arith, f.aligned, g.aligned)

module _ {root : ℕ} {tag : ℕ → Option Node} {s : Space} (tree : IsTree root tag s) (p i c : ℕ)
    (n : Node) (at : tag p ≡ some n) (inner : 0 < depth n) (place : i < table_len)
    (bad : is_valid (s.mem (slot p i)) ≡ false) (frame : IsFrame c) (fresh : tag c ≡ none) where
  other_page : (q : ℕ) (m : Node) → tag q ≡ some m → q ≢ c
  other_page q m at_q e = cc (at_q, fresh, ap tag e)

  with_table-IsLinked : IsLinked tag s.mem (with_table (slot p i) c s.mem) p i c n
  with_table-IsLinked = record {
    parent = at;
    inner = inner;
    place = place;
    frame = frame;
    fresh = fresh;
    bad = bad;
    linked = write_word-same (fill_zero c 512 s.mem) (slot p i) (pointer c);
    zeroed = λ j lj.
        write_word-other (fill_zero c 512 s.mem) (slot p i) (pointer c) (slot c j) (λ e.
          let (same, _) = slot-inj j i frame (tagged-IsFrame tree p n at) lj place e in
          other_page p n at (sym same))
        ∙ fill_zero-inside c j s.mem lj;
    others = λ q j m at_q lj ne.
        write_word-other (fill_zero c 512 s.mem) (slot p i) (pointer c) (slot q j) ne
        ∙ fill_zero-outside j s.mem frame (tagged-IsFrame tree q m at_q) (other_page q m at_q) lj;
  }

-- Pages enough for the table behind an entry: none if there is one, and one if not.
abbrev pub CanPay : ℕ → Bool → Heap → Type 0
CanPay k there h = ((there ≡ true) × IsReady k h) ⊎ IsReady (suc k) h

-- What a step leaves.
pub record Ensured (root : ℕ) (tag : ℕ → Option Node) (s : Space) (p i k : ℕ) : Type 0 where
  pub space : Space
  pub tags : ℕ → Option Node
  pub returns : ensure_table (slot p i) s ≡ done space
  pub grown : Grown root tag tags s space
  pub ready : IsReady k space.heap
  pub valid : is_valid (space.mem (slot p i)) ≡ true

module _ {root : ℕ} {tag : ℕ → Option Node} {s : Space} (tree : IsTree root tag s) (p i k : ℕ)
    (n : Node) (at : tag p ≡ some n) (inner : 0 < depth n) (place : i < table_len) where
  ensure_there : is_valid (s.mem (slot p i)) ≡ true → IsReady k s.heap → Ensured root tag s p i k
  ensure_there ok ready = record {
    space = s;
    tags = tag;
    returns = ensure_table-valid (slot p i) s ok;
    grown = Grown-refl tree;
    ready = ready;
    valid = ok;
  }

  ensure_new :
      is_valid (s.mem (slot p i)) ≡ false → IsReady (suc k) s.heap → Ensured root tag s p i k
  unfolding ensure_table is_invalid
  ensure_new bad ready =
      let (c, h, got, left, framed, taken, free, kept, change) =
        allocate-IsHeld ready tree.framed in
      let mem = with_table (slot p i) c s.mem in
      let frame : IsFrame c = held-IsFrame framed left.placed.positive taken in
      let fresh : tag c ≡ none = elim (Option-cases (tag c)) [
        | inl e ↦ e
        | inr (m, e) ↦ absurd (free (tree.held c m e))
      ] in
      let link = with_table-IsLinked tree p i c n at inner place bad frame fresh in
      let zeroed : zallocate 1 s.mem s.heap ≡ done (some c, fill_zero c 512 s.mem, h) =
        zallocate-done s.mem s.heap got in
      record {
        space = record { mem = mem; heap = h };
        tags = tag_new tag c (below n i);
        returns = rw (bad, zeroed) refl;
        grown =
            Grown-link tree (record { mem = mem; heap = h }) link framed left.placed.positive taken
              kept change;
        ready = left;
        valid = ap is_valid link.linked ∙ pointer-is_valid frame;
      }

  pub ensure_table-Ensured :
      CanPay k (is_valid (s.mem (slot p i))) s.heap → Ensured root tag s p i k
  ensure_table-Ensured pay = elim (Bool-cases (is_valid (s.mem (slot p i)))) [
    | inl ok ↦
        ensure_there ok
          (elim pay [ inl (_, ready) ↦ ready | inr ready ↦ weaken-IsReady (omega arith) ready ])
    | inr bad ↦ elim pay [ inl (ok, _) ↦ absurd (cc (ok, bad)) | inr ready ↦ ensure_new bad ready ]
  ]
