-- ===== src/PageFrame/Grants/Refines.antt =====
-- Sequences of calls to src/mm/alloc/page_frame.rs against the grants that they leave.
use vesper.Prelude.{
  ℕ, suc, ◌+◌, ◌*◌, ◌^◌, ◌<◌, ◌≤◌, ◌≡◌, refl, sym, ap, ◌∙◌, Option, none, some, ◌∷◌, ◌++◌, arith,
  length, done, ◌==◌, inl, inr, dec_lt, if◌then◌else◌,
}
use mathlib.Core.Path.{subst, fun_ext}
use vesper.PageFrame.{Heap, page_size, page_addr, allocate, deallocate, init}
use vesper.PageFrame.Segments.{run, gaps, render, pages, length-render, pages-append, pages-gaps}
use vesper.PageFrame.Placed.{IsPlaced, page_addr_placed, init-gaps}
use vesper.PageFrame.FirstFit.{allocate-run, allocate_total}
use vesper.PageFrame.Deallocate.{heap_end, deallocate-run, deallocate_outside}
use vesper.PageFrame.Grants.{
  Grants, no_grants, update, held, Represents, Disjoint, Step, grant, refuse, give_back, Reach,
  here, onward,
}
use vesper.PageFrame.Grants.Runs.{held-run, held-gaps_again, held-none, held-some, held-Disjoint}

-- What holds between the calls.
pub record IsOwned (h : Heap) (f : Grants) : Type 0 where
  pub placed : IsPlaced h
  pub represents : Represents h f

-- Two placed pages with one address are one page.
page_addr_inj :
    {h : Heap} (i j : ℕ)
    → IsPlaced h
    → i < length h.table
    → j < length h.table
    → page_addr h i ≡ page_addr h j
    → i ≡ j
page_addr_inj i j placed lt lt' e =
    omega (arith, (page_addr_placed i placed lt).0, (page_addr_placed j placed lt').0, e)

update_cong :
    (f g : Grants) {i k : ℕ} (v : Option ℕ)
    → i ≡ k
    → ((j : ℕ) → f j ≡ g j)
    → (j : ℕ) → update f i v j ≡ update g k v j
update_cong f g {i} v at same j =
    ap (λ x. if j == i then v else x) (same j) ∙ ap (λ l. if j == l then v else g j) at

-- The new grant.
allocate-Represents :
    {h h' : Heap} {f : Grants} (q i : ℕ)
    → IsOwned h f
    → i < length h.table
    → allocate (suc q) h ≡ done (some (page_addr h i), h')
    → IsOwned h' (update f i (some (suc q)))
allocate-Represents {h} {h'} {f} q i o lt e =
    let (pre, post, split, at, after, first) =
      allocate-run h (o.represents).segments (o.represents).table q e in
    let size : length h.table ≡ pages pre + suc q + pages post = omega (
      arith,
      ap length (o.represents).table,
      length-render (o.represents).segments,
      ap pages split,
      pages-append pre (gaps (suc q) ++ post),
      pages-append (gaps (suc q)) post,
      pages-gaps (suc q),
    ) in
    let same : i ≡ pages pre = page_addr_inj i (pages pre) o.placed lt (omega (arith, size)) at in
    subst (λ g. IsOwned g (update f i (some (suc q)))) (sym after)
      (record {
        placed = record {
          positive = (o.placed).positive;
          below = omega (
            arith,
            (o.placed).below,
            size,
            length-render (pre ++ (run q ∷ post)),
            pages-append pre (run q ∷ post),
          );
        };
        represents = record {
          segments = pre ++ (run q ∷ post);
          table = refl;
          grants = λ j.
              update_cong f (held (pre ++ (gaps (suc q) ++ post))) (some (suc q)) same
                (λ k. (o.represents).grants k ∙ ap (λ s. held s k) split) j
              ∙ sym (held-run q pre post j);
        };
      })

-- The grant that is given back.
give_back-Represents :
    {h h' : Heap} {f : Grants} (i n : ℕ)
    → IsOwned h f
    → f i ≡ some n
    → deallocate (page_addr h i) h ≡ done h'
    → IsOwned h' (update f i none)
give_back-Represents {h} {h'} {f} i n o own e =
    let (pre, post, m, split, at, size) =
      held-some (o.represents).segments i n (sym ((o.represents).grants i) ∙ own) in
    let table : h.table ≡ render (pre ++ (run m ∷ post)) = (o.represents).table ∙ ap render split in
    elim (dec_lt (page_addr h i) (heap_end h)) [
      | no past ↦ absurd (cc (deallocate_outside h (page_addr h i) (omega arith), e))
      | yes below ↦
          let freed : deallocate (page_addr h i) h
              ≡ done (record h { table = render (pre ++ (gaps (suc m) ++ post)) }) =
            rw at (deallocate-run h o.placed pre post m table (rw at at below)) in
          let after : h' ≡ record h { table = render (pre ++ (gaps (suc m) ++ post)) } = cc in
          subst (λ g. IsOwned g (update f i none)) (sym after)
            (record {
              placed = record {
                positive = (o.placed).positive;
                below = omega (
                  arith,
                  (o.placed).below,
                  ap length table,
                  length-render (pre ++ (run m ∷ post)),
                  length-render (pre ++ (gaps (suc m) ++ post)),
                  pages-append pre (run m ∷ post),
                  pages-append pre (gaps (suc m) ++ post),
                  pages-append (gaps (suc m)) post,
                  pages-gaps (suc m),
                );
              };
              represents = record {
                segments = pre ++ (gaps (suc m) ++ post);
                table = refl;
                grants = λ j.
                    update_cong f (held (pre ++ (run m ∷ post))) none at
                      (λ k. (o.represents).grants k ∙ ap (λ s. held s k) split) j
                    ∙ sym (held-gaps_again m pre post j);
              };
            })
    ]

Step-IsOwned : {h h' : Heap} {f f' : Grants} → Step h f h' f' → IsOwned h f → IsOwned h' f'
Step-IsOwned (grant q i lt e after) o =
    subst (IsOwned _) (sym after) (allocate-Represents q i o lt e)
Step-IsOwned {h} {f = f} (refuse q e) o =
    elim (allocate_total _ (o.represents).segments (o.represents).table q o.placed) [
      | inl (p, g, granted) ↦ absurd (cc (granted, e))
      | inr (same, _) ↦ subst (λ g. IsOwned g f) (cc (same, e)) o
    ]
Step-IsOwned (give_back i n own e after) o =
    subst (IsOwned _) (sym after) (give_back-Represents i n o own e)

Reach-IsOwned :
    {h : Heap} {f : Grants} {h' : Heap} {f' : Grants}
    → Reach h f h' f'
    → IsOwned h f
    → IsOwned h' f'
Reach-IsOwned here o = o
Reach-IsOwned (onward r s) o = Step-IsOwned s (Reach-IsOwned r o)

-- A page that a caller holds lies in the table, with the rest of its run.
grant-inside :
    {h : Heap} {f : Grants} (i n : ℕ) → IsOwned h f → f i ≡ some n → i + n ≤ length h.table
grant-inside {h} i n o own =
    let (pre, post, m, split, at, size) =
      held-some (o.represents).segments i n (sym ((o.represents).grants i) ∙ own) in
    omega (
      arith,
      ap length (o.represents).table,
      length-render (o.represents).segments,
      ap pages split,
      pages-append pre (run m ∷ post),
    )

-- Giving back what is held does not panic.
grant-give_back :
    {h : Heap} {f : Grants} (i n : ℕ)
    → IsOwned h f
    → f i ≡ some n
    → page_addr h i < heap_end h
    → (h' : Heap) × (deallocate (page_addr h i) h ≡ done h')
grant-give_back {h} i n o own below =
    let (pre, post, m, split, at, size) =
      held-some (o.represents).segments i n (sym ((o.represents).grants i) ∙ own) in
    let table : h.table ≡ render (pre ++ (run m ∷ post)) = (o.represents).table ∙ ap render split in
    (
      record h { table = render (pre ++ (gaps (suc m) ++ post)) },
      rw at (deallocate-run h o.placed pre post m table (rw at at below)),
    )

init-IsOwned :
    (h : Heap)
    → 0 < length h.table
    → h.heap_start + length h.table + page_size + length h.table * page_size ≤ 2 ^ 64
    → IsOwned (init h) no_grants
init-IsOwned h some_pages fits =
    let (free, onto, above, below) = init-gaps h some_pages (omega arith) in
    record {
      placed = record {
        positive = omega (arith, above);
        below = omega (
          arith,
          below,
          ap length free,
          length-render (gaps (length h.table)),
          pages-gaps (length h.table),
        );
      };
      represents = record {
        segments = gaps (length h.table);
        table = free;
        grants = λ i. sym (held-none (length h.table) i);
      };
    }

-- From the heap that `init` leaves, with at least one descriptor and room for the pages in the address
-- space, after any sequence of requests and of give_backs of what is held: no two grants have a page in
-- common, every grant lies in the table, and one that begins in front of the heap's end can be given
-- back without a panic.
pub Reach-Disjoint :
    {h' : Heap} {f : Grants} (h : Heap)
    → 0 < length h.table
    → h.heap_start + length h.table + page_size + length h.table * page_size ≤ 2 ^ 64
    → Reach (init h) no_grants h' f
    → Disjoint f
      × ((i n : ℕ) → f i ≡ some n → i + n ≤ length h'.table)
      × ((i n : ℕ)
          → f i ≡ some n
          → page_addr h' i < heap_end h'
          → (g : Heap) × (deallocate (page_addr h' i) h' ≡ done g))
Reach-Disjoint {h'} {f} h some_pages fits r =
    let o = Reach-IsOwned r (init-IsOwned h some_pages fits) in
    let grants : f ≡ held (o.represents).segments = fun_ext (o.represents).grants in
    (
      subst Disjoint (sym grants) (held-Disjoint (o.represents).segments),
      λ i n own. grant-inside i n o own,
      λ i n own below. grant-give_back i n o own below,
    )
