-- ===== src/Boot/Kernel/Sections.antt =====
-- The sections that `kinit` of src/boot/entry.rs maps, one after another.
use vesper.Prelude.{
  ℕ, ◌+◌, ◌-◌, ◌*◌, ◌/◌, ◌^◌, ◌<◌, ◌≤◌, ◌≡◌, ◌≢◌, refl, ap, ◌∙◌, Bool, true, false, ◌&&◌, ◌||◌,
  Option, some, arith, List, [], ◌∷◌, ltb, leb, if◌then◌else◌, Outcome, done, ◌>>=◌, bit_and,
}
use vesper.PageFrame.{page_size}
use vesper.PageFrame.Ready.{IsReady, weaken-IsReady}
use vesper.Sv39.PteFlags
use vesper.Sv39.{Space, v2p}
use vesper.Sv39.Tree.{Node, IsTree}
use vesper.Sv39.Identity.{table_pages, id_map_from-IsReady}
use vesper.Boot.{map_section}
use vesper.Boot.Sections.{map_section-pages}

pub record Section : Type 0 where
  pub start : ℕ
  pub stop : ℕ
  pub bits : ℕ

pub record IsSection (x : Section) : Type 0 where
  pub ordered : x.start ≤ x.stop
  pub low : x.stop + page_size ≤ 2 ^ 39
  pub small : x.bits < 2 ^ 10
  pub some_rwx : bit_and x.bits PteFlags.rwx ≢ 0

-- Does a page that the section touches hold the address?
abbrev pub touches : Section → ℕ → Bool
touches x w =
    leb (x.start / page_size) (w / page_size)
    && ltb (w / page_size) ((x.stop + page_size - 1) / page_size)

-- The pages that the tables of a section take at most.
abbrev pub section_pages : Section → ℕ
section_pages x =
    table_pages (x.start / page_size * page_size)
      ((x.stop + page_size - 1) / page_size - x.start / page_size)

-- What `map_section` leaves.
pub record Covered (root : ℕ) (tag : ℕ → Option Node) (s : Space) (x : Section) (k : ℕ)
    : Type 0 where
  pub space : Space
  pub tags : ℕ → Option Node
  pub returns : map_section root x.start x.stop x.bits s ≡ done space
  pub tree : IsTree root tags space
  pub ready : IsReady k space.heap
  pub translates :
      (w : ℕ)
      → w < 2 ^ 39
      → v2p space.mem root w ≡ (if touches x w then done (some w) else v2p s.mem root w)

touches-identify :
    (x : Section) (low n w : ℕ) (t : Outcome (Option ℕ))
    → low ≡ x.start / page_size * page_size
    → low + n * page_size ≡ (x.stop + page_size - 1) / page_size * page_size
    → (if leb low w && ltb w (low + n * page_size) then done (some w) else t)
      ≡ (if touches x w then done (some w) else t)
touches-identify x low n w t e e' = ground (arith, e, e')

pub map_section-Covered :
    {root : ℕ} {tag : ℕ → Option Node} {s : Space} (x : Section) (k : ℕ)
    → IsSection x
    → IsTree root tag s
    → IsReady (section_pages x + k) s.heap
    → Covered root tag s x k
map_section-Covered {root} {tag} {s} x k ok tree ready =
    let (low, n, mapped, even, le, lt, le', lt') =
      map_section-pages root x.start x.stop x.bits s ok.ordered (omega (arith, ok.low)) in
    let e_low : low ≡ x.start / page_size * page_size = omega (arith, even, le, lt) in
    let e_n : n ≡ (x.stop + page_size - 1) / page_size - x.start / page_size =
      omega (arith, even, le, lt, le', lt', ok.ordered) in
    let e_high : low + n * page_size ≡ (x.stop + page_size - 1) / page_size * page_size =
      omega (arith, even, le, lt, le', lt', ok.ordered) in
    let cost : table_pages low n ≡ section_pages x = cc (e_low, e_n) in
    let r =
      id_map_from-IsReady low n x.bits k ok.small ok.some_rwx tree even
        (omega (arith, ok.low, lt', even)) (weaken-IsReady (omega (arith, cost)) ready) in
    record {
      space = r.space;
      tags = r.tags;
      returns = mapped ∙ r.returns;
      tree = r.tree;
      ready = r.ready;
      translates =
          λ w lt. r.translates w lt ∙ touches-identify x low n w (v2p s.mem root w) e_low e_high;
    }

-- The sections of a list, and what they touch.
unfoldable pub map_all : ℕ → List Section → Space → Outcome Space
unfolding map_section
map_all root [] s = done s
map_all root (x ∷ xs) s = map_section root x.start x.stop x.bits s >>= map_all root xs

abbrev pub covers : List Section → ℕ → Bool
covers [] w = false
covers (x ∷ xs) w = touches x w || covers xs w

abbrev pub all_pages : List Section → ℕ
all_pages [] = 0
all_pages (x ∷ xs) = section_pages x + all_pages xs

abbrev pub AllSections : List Section → Type 0
AllSections [] = 0 ≤ 0
AllSections (x ∷ xs) = IsSection x × AllSections xs

cover_more :
    (a b : Bool) (w : ℕ) (t : Outcome (Option ℕ))
    → (if b then done (some w) else if a then done (some w) else t)
      ≡ (if a || b then done (some w) else t)
cover_more true true w t = refl
cover_more true false w t = refl
cover_more false b w t = refl

pub map_all-covers :
    {root : ℕ} (xs : List Section) {tag : ℕ → Option Node} {s : Space}
    → AllSections xs
    → IsTree root tag s
    → IsReady (all_pages xs) s.heap
    → (s' : Space) × (map_all root xs s ≡ done s')
      × ((w : ℕ)
          → w < 2 ^ 39
          → v2p s'.mem root w ≡ (if covers xs w then done (some w) else v2p s.mem root w))
unfolding map_all
map_all-covers [] ok tree ready = (_, refl, λ w lt. refl)
map_all-covers {root} (x ∷ xs) {tag} {s} (ok, more) tree ready =
    let r = map_section-Covered x (all_pages xs) ok tree ready in
    let (s', returns, translates) = map_all-covers xs more r.tree r.ready in
    (
      s',
      rw r.returns returns,
      λ w lt.
          translates w lt
          ∙ ap (λ t. if covers xs w then done (some w) else t) (r.translates w lt)
          ∙ cover_more (touches x w) (covers xs w) w (v2p s.mem root w),
    )
