-- ===== src/Boot/Kernel/Identity.antt =====
-- The translation that `kinit` of src/boot/entry.rs leaves behind.
use vesper.Prelude.{
  ℕ, suc, ◌+◌, ◌*◌, ◌/◌, ◌%◌, ◌^◌, ◌<◌, ◌≤◌, ◌≡◌, refl, ap, ◌∙◌, Bool, true, false, none, some,
  arith, length, List, [], ◌∷◌, if◌then◌else◌, done, ◌>>=◌,
}
use vesper.PageFrame.{Heap, Memory, page_size, init, zallocate}
use vesper.PageFrame.Startup.{init-IsReady}
use vesper.PageFrame.Ready.{IsReady}
use vesper.PageFrame.Fresh.{IsFramed}
use vesper.Sv39.{Space, v2p}
use vesper.Sv39.Tree.{top}
use vesper.Sv39.Link.{tagged-IsFrame}
use vesper.Sv39.Root.{zallocate-Rooted}
use vesper.Uart.{uart_base}
use vesper.Virtio.Device.{mmio_start}
use vesper.Bus.{mmio_end, mmio_stride}
use vesper.Boot.{align_down, make_satp_sv39}
use vesper.Boot.Sections.{make_satp_sv39-fields}
use vesper.Boot.Kernel.{rx_flags, ro_flags, rw_flags, map_kernel, with_root_table, build_page_table}
use vesper.Boot.Kernel.Linker.{Symbols, IsLaidOut}
use vesper.Boot.Kernel.Sections.{Section, AllSections, covers, all_pages, map_all, map_all-covers}

-- What the kernel needs: its image, its stack, the heap, the UART's page and the pages of the virtio bus.
abbrev pub sections : Symbols → List Section
sections sym =
    record { start = sym.text_start; stop = sym.text_end; bits = rx_flags }
    ∷ record { start = sym.rodata_start; stop = sym.rodata_end; bits = ro_flags }
    ∷ record { start = sym.data_start; stop = sym.data_end; bits = rw_flags }
    ∷ record { start = sym.bss_start; stop = sym.bss_end; bits = rw_flags }
    ∷ record { start = sym.stack_start; stop = sym.stack_end; bits = rw_flags }
    ∷ record { start = sym.heap_start; stop = sym.memory_end; bits = rw_flags }
    ∷ record { start = uart_base; stop = uart_base + page_size; bits = rw_flags }
    ∷ record { start = mmio_start; stop = mmio_end + mmio_stride; bits = rw_flags }
    ∷ []

map_kernel-all :
    (sym : Symbols) (root : ℕ) (s : Space) → map_kernel sym root s ≡ map_all root (sections sym) s
unfolding map_kernel map_all align_down
map_kernel-all sym root s = refl

IsLaidOut-sections : (sym : Symbols) → IsLaidOut sym → AllSections (sections sym)
IsLaidOut-sections sym l = (
  record { ordered = l.text_fits; low = l.text_low; small = omega arith; some_rwx = omega arith },
  (
    record {
      ordered = l.rodata_fits;
      low = l.rodata_low;
      small = omega arith;
      some_rwx = omega arith;
    },
    (
      record {
        ordered = l.data_fits;
        low = l.data_low;
        small = omega arith;
        some_rwx = omega arith;
      },
      (
        record {
          ordered = l.bss_fits;
          low = l.bss_low;
          small = omega arith;
          some_rwx = omega arith;
        },
        (
          record {
            ordered = l.stack_fits;
            low = l.stack_low;
            small = omega arith;
            some_rwx = omega arith;
          },
          (
            record {
              ordered = omega (arith, l.heap_fits);
              low = l.memory_low;
              small = omega arith;
              some_rwx = omega arith;
            },
            (
              record {
                ordered = omega arith;
                low = omega arith;
                small = omega arith;
                some_rwx = omega arith;
              },
              (
                record {
                  ordered = omega arith;
                  low = omega arith;
                  small = omega arith;
                  some_rwx = omega arith;
                },
                omega arith,
              ),
            ),
          ),
        ),
      ),
    ),
  ),
)

-- A heap over the symbols with pages for the tables.
pub record HasRoom (sym : Symbols) (h : Heap) : Type 0 where
  pub start : h.heap_start ≡ sym.heap_start
  pub size : h.heap_size ≡ sym.heap_size
  pub descriptors : length h.table ≡ sym.heap_size / page_size
  pub room :
      sym.heap_start + length h.table + page_size + suc (all_pages (sections sym)) * page_size
      ≤ sym.memory_end

room-IsReady :
    (sym : Symbols) (h : Heap) (n : ℕ)
    → IsLaidOut sym
    → h.heap_start ≡ sym.heap_start
    → h.heap_size ≡ sym.heap_size
    → length h.table ≡ sym.heap_size / page_size
    → 0 < n
    → sym.heap_start + length h.table + page_size + n * page_size ≤ sym.memory_end
    → IsReady n (init h) × IsFramed (init h)
room-IsReady sym h n l start size descriptors pos room =
    init-IsReady n h (omega (arith, l.heap_fits)) (omega (arith, l.heap_fits))
      (omega (arith, l.heap_fits)) (omega (arith, l.heap_fits, l.memory_low))
      (omega (arith, l.heap_fits, l.memory_low))

if-done :
    (b : Bool) (w : ℕ)
    → (if b then done (some w) else done none) ≡ done (if b then some w else none)
if-done true w = refl
if-done false w = refl

build_from :
    (sym : Symbols) (mem : Memory) (h : Heap) (root : ℕ) (s s' : Space)
    → zallocate 1 mem (init h) ≡ done (some root, s.mem, s.heap)
    → map_kernel sym root s ≡ done s'
    → build_page_table sym mem h ≡ done (make_satp_sv39 root, s')
unfolding build_page_table
build_from sym mem h root s s' e e' =
    ap (λ o. o >>= with_root_table sym) e ∙ ap (λ o. o >>= λ t. done (make_satp_sv39 root, t)) e'

-- With sections that do not end in front of their starts and lie in the low 39 bits, a heap over the
-- linker's symbols that reaches to the end of the memory, and room in it for the tables of all
-- sections, the set-up does not panic. What it hands to `satp` selects Sv39 and the page of a root
-- table, under which an address of the first 39 bits translates to itself if it stands in a page that
-- a section touches, and does not translate if it does not.
pub build_page_table-identity :
    (sym : Symbols) (mem : Memory) (h : Heap)
    → IsLaidOut sym
    → HasRoom sym h
    → (satp : ℕ) × (root : ℕ) × (s : Space) × (build_page_table sym mem h ≡ done (satp, s))
      × (satp / 2 ^ 60 ≡ 8)
      × (satp % 2 ^ 44 * page_size ≡ root)
      × ((w : ℕ)
          → w < 2 ^ 39
          → v2p s.mem root w ≡ done (if covers (sections sym) w then some w else none))
build_page_table-identity sym mem h l room =
    let n = suc (all_pages (sections sym)) in
    let (ready, framed) =
      room-IsReady sym h n l room.start room.size room.descriptors (omega arith) room.room in
    let r = zallocate-Rooted mem ready framed in
    let (s, returns, translates) =
      map_all-covers (sections sym) (IsLaidOut-sections sym l) r.tree r.ready in
    let frame = tagged-IsFrame r.tree r.root top r.tree.at_top in
    let (mode, number) = make_satp_sv39-fields r.root (omega (arith, frame.low)) in
    (
      make_satp_sv39 r.root,
      r.root,
      s,
      build_from sym mem h r.root r.space s r.returns (map_kernel-all sym r.root r.space ∙ returns),
      mode,
      omega (arith, number, frame.aligned),
      λ w lt.
          translates w lt
          ∙ ap (λ t. if covers (sections sym) w then done (some w) else t) (r.unmapped w)
          ∙ if-done (covers (sections sym) w) w,
    )
