-- ===== src/Sv39/Root.antt =====
-- A root table of src/mm/paging/sv39/map.rs, fresh from src/mm/alloc/page_frame.rs.
use vesper.Prelude.{
  arith, ℕ, suc, ◌<◌, ◌≡◌, refl, sym, ap, ◌∙◌, false, Option, none, some, ◌==◌, ne→==, ==_iff,
  if◌then◌else◌, done, ℕ_discrete,
}
use mathlib.Core.Bool.{false≢true}
use mathlib.Core.Path.{subst}
use vesper.PageFrame.{Heap, Memory, zallocate, fill_zero}
use vesper.PageFrame.Ready.{IsReady}
use vesper.PageFrame.Fresh.{IsFramed, IsHeld, allocate-IsHeld}
use vesper.Sv39.{Space, table_len, is_valid, vpn, entry_addr, v2p}
use vesper.Sv39.Tree.{
  depth, mid, low, InPlace, Node, top, slot, IsTree, IsFrame, vpn-lt, held-IsFrame, entry_addr-slot,
}
use vesper.Sv39.Grow.{some-inj}
use vesper.Sv39.Link.{resolve-invalid}
use vesper.Sv39.Ensure.{zallocate-done, fill_zero-inside}

-- The root has its place, and nothing else.
abbrev pub tag_root : ℕ → ℕ → Option Node
tag_root root q = if q == root then some top else none

-- A table on the heap that maps nothing.
pub record Rooted (mem : Memory) (h : Heap) (k : ℕ) : Type 0 where
  pub root : ℕ
  pub space : Space
  pub tags : ℕ → Option Node
  pub returns : zallocate 1 mem h ≡ done (some root, space.mem, space.heap)
  pub tree : IsTree root tags space
  pub ready : IsReady k space.heap
  pub unmapped : (w : ℕ) → v2p space.mem root w ≡ done none

invalid_zero : {e : ℕ} → e ≡ 0 → is_valid e ≡ false
unfolding is_valid
invalid_zero e = rw e refl

pub only_root : (c q : ℕ) (n : Node) → tag_root c q ≡ some n → q ≡ c
only_root c q n at = elim (ℕ_discrete q c) [
  | yes e ↦ e
  | no ne ↦ let missing : tag_root c q ≡ none = rw (ne→== q c ne) refl in absurd (cc (at, missing))
]

node_depth : (c q : ℕ) (n : Node) → tag_root c q ≡ some n → depth n ≡ 2
node_depth c q n at =
    let here : tag_root c q ≡ some top = rw ((==_iff q c).1 (only_root c q n at)) refl in
    ap depth (some-inj (sym at ∙ here))

pub InPlace-root :
    (c : ℕ) (mem : Memory) (q : ℕ) (n : Node)
    → tag_root c q ≡ some n
    → InPlace c (tag_root c) mem q n
InPlace-root c mem q top at = only_root c q top at
InPlace-root c mem q (mid i) at = absurd (omega (arith, node_depth c q (mid i) at))
InPlace-root c mem q (low i j) at = absurd (omega (arith, node_depth c q (low i j) at))

pub zallocate-Rooted :
    {k : ℕ} {h : Heap} (mem : Memory) → IsReady (suc k) h → IsFramed h → Rooted mem h k
unfolding v2p
zallocate-Rooted mem ready framed =
    let (c, h', got, left, framed', taken, free, kept, change) = allocate-IsHeld ready framed in
    let mem' = fill_zero c 512 mem in
    let frame : IsFrame c = held-IsFrame framed' left.placed.positive taken in
    let only : (q : ℕ) (n : Node) → tag_root c q ≡ some n → q ≡ c = λ q n at. only_root c q n at in
    let bad : (j : ℕ) → j < table_len → is_valid (mem' (slot c j)) ≡ false =
      λ j lj. invalid_zero (fill_zero-inside c j mem lj) in
    record {
      root = c;
      space = record { mem = mem'; heap = h' };
      tags = tag_root c;
      returns = zallocate-done mem _ got;
      tree = record {
        framed = framed';
        positive = left.placed.positive;
        at_top = rw ((==_iff c c).1 refl) refl;
        held = λ q n at. subst (IsHeld h') (sym (only q n at)) taken;
        in_place = λ q n at. InPlace-root c mem' q n at;
        branch = λ q n j at inner lj ok. absurd (
            false≢true
              (sym (bad j lj) ∙ ap (λ p. is_valid (mem' (slot p j))) (sym (only q n at)) ∙ ok));
      };
      ready = left;
      unmapped = λ w. resolve-invalid mem' w 2 (entry_addr c (vpn w 2)) (
          ap (λ a. is_valid (mem' a)) (entry_addr-slot (vpn w 2) frame (vpn-lt w 2))
          ∙ bad (vpn w 2) (vpn-lt w 2));
    }
