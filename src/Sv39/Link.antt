-- ===== src/Sv39/Link.antt =====
-- A table that `map` of src/mm/paging/sv39/map.rs allocates: a zeroed page behind an entry that was not valid.
use vesper.Prelude.{
  ℕ, zero, suc, ◌<◌, ◌≡◌, ◌≢◌, refl, sym, ap, ◌∙◌, true, false, Option, none, some, arith, ◌==◌,
  ne→==, ==_iff, if◌then◌else◌, Bool-cases, inl, inr, done, ℕ_discrete,
}
use vesper.PageFrame.{Memory}
use vesper.Sv39.{
  Space, table_len, is_valid, is_invalid, is_leaf, vpn, entry_addr, pte_to_addr, resolve,
}
use vesper.Sv39.Pointer.{pointer, pointer-is_valid, pointer-is_leaf, pte_to_addr-pointer}
use vesper.Sv39.Tree.{
  Node, top, mid, low, depth, below, slot, IsTree, IsFrame, vpn-lt, held-IsFrame, entry_addr-slot,
  slot-inj,
}

pub resolve-invalid :
    (mem : Memory) (vaddr k v : ℕ) → is_valid (mem v) ≡ false → resolve mem vaddr k v ≡ done none
unfolding resolve is_invalid
resolve-invalid mem vaddr zero v bad = rw bad refl
resolve-invalid mem vaddr (suc k) v bad = rw bad refl

-- The walk goes on in the table that an entry points at.
pub resolve-branch :
    (mem : Memory) (vaddr k v c : ℕ)
    → IsFrame c
    → is_valid (mem v) ≡ true
    → is_leaf (mem v) ≡ false
    → pte_to_addr (mem v) ≡ c
    → resolve mem vaddr (suc k) v ≡ resolve mem vaddr k (slot c (vpn vaddr k))
unfolding resolve is_invalid
resolve-branch mem vaddr k v c f ok branch to =
    let there : entry_addr (pte_to_addr (mem v)) (vpn vaddr k) ≡ slot c (vpn vaddr k) =
      ap (λ a. entry_addr a (vpn vaddr k)) to ∙ entry_addr-slot (vpn vaddr k) f (vpn-lt vaddr k) in
    let at_a_page : (slot c (vpn vaddr k) == 0) ≡ false = ne→== _ _ (omega (arith, f.positive)) in
    rw (ok, branch) (rw (there, at_a_page) refl)

-- The walk looks at one entry of the last table.
pub resolve-same :
    (mem mem' : Memory) (vaddr v : ℕ)
    → mem' v ≡ mem v
    → resolve mem' vaddr 0 v ≡ resolve mem vaddr 0 v
unfolding resolve
resolve-same mem mem' vaddr v e = rw e refl

pub depth-below : (m : Node) (i k : ℕ) → depth m ≡ suc k → depth (below m i) ≡ k
depth-below top i k e = omega arith
depth-below (mid j) i k e = omega arith
depth-below (low j l) i k e = absurd (omega arith)

pub tagged-IsFrame :
    {root : ℕ} {tag : ℕ → Option Node} {s : Space}
    → IsTree root tag s
    → (p : ℕ) (n : Node) → tag p ≡ some n
    → IsFrame p
tagged-IsFrame tree p n at = held-IsFrame tree.framed tree.positive (tree.held p n at)

-- Entries of tables at different levels are different.
pub slot-depth :
    {root : ℕ} {tag : ℕ → Option Node} {s : Space} (tree : IsTree root tag s) (p q i j : ℕ)
    (n m : Node)
    → tag p ≡ some n
    → tag q ≡ some m
    → i < table_len
    → j < table_len
    → depth m ≢ depth n
    → slot q j ≢ slot p i
slot-depth {tag = tag} tree p q i j n m at_p at_q li lj apart e =
    let (same, _) =
      slot-inj j i (tagged-IsFrame tree q m at_q) (tagged-IsFrame tree p n at_p) lj li e in
    apart (some-depth (sym at_q ∙ ap tag same ∙ at_p))
  where
    some-depth : some m ≡ some n → depth m ≡ depth n
    some-depth e = let same : m ≡ n = cc in ap depth same

-- Another memory, in which the entry `i` of the table at `p` points at the page `c`, which is zeroed and was no
-- table, and the tables are otherwise the same.
pub record IsLinked (tag : ℕ → Option Node) (mem mem' : Memory) (p i c : ℕ) (n : Node)
    : Type 0 where
  pub parent : tag p ≡ some n
  pub inner : 0 < depth n
  pub place : i < table_len
  pub frame : IsFrame c
  pub fresh : tag c ≡ none
  pub bad : is_valid (mem (slot p i)) ≡ false
  pub linked : mem' (slot p i) ≡ pointer c
  pub zeroed : (j : ℕ) → j < table_len → mem' (slot c j) ≡ 0
  pub others :
      (q j : ℕ) (m : Node)
      → tag q ≡ some m
      → j < table_len
      → slot q j ≢ slot p i
      → mem' (slot q j) ≡ mem (slot q j)

module _ {root : ℕ} {tag : ℕ → Option Node} {s : Space} (tree : IsTree root tag s) (mem' : Memory)
    {p i c : ℕ} {n : Node} (link : IsLinked tag s.mem mem' p i c n) where
  -- No address is translated otherwise than before.
  pub resolve-link :
      (vaddr k q : ℕ) (m : Node)
      → tag q ≡ some m
      → depth m ≡ k
      → resolve mem' vaddr k (slot q (vpn vaddr k)) ≡ resolve s.mem vaddr k (slot q (vpn vaddr k))
  unfolding is_valid
  resolve-link vaddr zero q m at_q level = resolve-same s.mem mem' vaddr (slot q (vpn vaddr 0)) (
      link.others q (vpn vaddr 0) m at_q (vpn-lt vaddr 0) (
        slot-depth tree p q i (vpn vaddr 0) n m link.parent at_q link.place (vpn-lt vaddr 0)
          (λ e. omega (arith, link.inner))))
  resolve-link vaddr (suc k) q m at_q level =
      let j = vpn vaddr (suc k) in
      let e = s.mem (slot q j) in
      elim (ℕ_discrete (slot q j) (slot p i)) [
        | yes same ↦
            let e' : mem' (slot q j) ≡ pointer c = ap mem' same ∙ link.linked in
            resolve-branch mem' vaddr k (slot q j) c link.frame
              (ap is_valid e' ∙ pointer-is_valid link.frame)
              (ap is_leaf e' ∙ pointer-is_leaf link.frame)
              (ap pte_to_addr e' ∙ pte_to_addr-pointer link.frame)
            ∙ resolve-invalid mem' vaddr k (slot c (vpn vaddr k))
                (rw (link.zeroed (vpn vaddr k) (vpn-lt vaddr k)) refl)
            ∙ sym (
                resolve-invalid s.mem vaddr (suc k) (slot q j)
                  (ap (λ a. is_valid (s.mem a)) same ∙ link.bad))
        | no ne ↦
            let kept : mem' (slot q j) ≡ e = link.others q j m at_q (vpn-lt vaddr (suc k)) ne in
            elim (Bool-cases (is_valid e)) [
              | inl ok ↦
                  let (leafless, child) =
                    tree.branch q m j at_q (omega arith) (vpn-lt vaddr (suc k)) ok in
                  let f = tagged-IsFrame tree (pte_to_addr e) (below m j) child in
                  resolve-branch mem' vaddr k (slot q j) (pte_to_addr e) f (ap is_valid kept ∙ ok)
                    (ap is_leaf kept ∙ leafless) (ap pte_to_addr kept)
                  ∙ resolve-link vaddr k (pte_to_addr e) (below m j) child (depth-below m j k level)
                  ∙ sym (resolve-branch s.mem vaddr k (slot q j) (pte_to_addr e) f ok leafless refl)
              | inr invalid ↦
                  resolve-invalid mem' vaddr (suc k) (slot q j) (ap is_valid kept ∙ invalid)
                  ∙ sym (resolve-invalid s.mem vaddr (suc k) (slot q j) invalid)
            ]
      ]

-- The new table has its place.
abbrev pub tag_new : (ℕ → Option Node) → ℕ → Node → ℕ → Option Node
tag_new tag c n q = if q == c then some n else tag q

pub tag_new-old :
    (tag : ℕ → Option Node) (c q : ℕ) (n m : Node)
    → tag c ≡ none
    → tag q ≡ some m
    → tag_new tag c n q ≡ some m
tag_new-old tag c q n m fresh at = elim (ℕ_discrete q c) [
  | yes e ↦ absurd (cc (ap tag e, fresh, at))
  | no ne ↦ rw (ne→== q c ne) at
]

pub tag_new_self : (tag : ℕ → Option Node) (c : ℕ) (n : Node) → tag_new tag c n c ≡ some n
tag_new_self tag c n = rw ((==_iff c c).1 refl) refl
