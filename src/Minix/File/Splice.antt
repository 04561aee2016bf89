-- ===== src/Minix/File/Splice.antt =====
-- The copy of a piece of a block into the caller's slice (src/fs/minix3/fs.rs, `copy_zone`), byte by byte.
use vesper.Prelude.{
  ℕ, zero, suc, ◌+◌, ◌<◌, ◌≤◌, ◌≡◌, refl, ap, ◌∙◌, List, [], ◌∷◌, arith, length, take, drop,
  get_elem?, length-take, length-drop,
}
use vesper.Minix.File.{splice}

module _ {A : Type 0} where
  get_elem?-drop : (m i : ℕ) (xs : List A) → get_elem? (drop m xs) i ≡ get_elem? xs (m + i)
  get_elem?-drop zero i xs = ap (get_elem? xs) (omega arith)
  get_elem?-drop (suc m) i [] = refl
  get_elem?-drop (suc m) i (x ∷ xs) =
      let e : suc m + i ≡ suc (m + i) = omega arith in rw e (get_elem?-drop m i xs)

  pub get_elem?-take : (n i : ℕ) (xs : List A) → i < n → get_elem? (take n xs) i ≡ get_elem? xs i
  get_elem?-take zero i xs h = elim h [ ]
  get_elem?-take (suc n) i [] h = refl
  get_elem?-take (suc n) zero (x ∷ xs) h = refl
  get_elem?-take (suc n) (suc i) (x ∷ xs) h = get_elem?-take n i xs (omega arith)

pub get_elem?-piece :
    (m n i : ℕ) (xs : List ℕ) → i < n → get_elem? (take n (drop m xs)) i ≡ get_elem? xs (m + i)
get_elem?-piece m n i xs h = get_elem?-take n i (drop m xs) h ∙ get_elem?-drop m i xs

pub length-piece : (m n : ℕ) (xs : List ℕ) → m + n ≤ length xs → length (take n (drop m xs)) ≡ n
length-piece m n xs h = omega (arith, length-take n (drop m xs), length-drop m xs)

pub length-splice : (out : List ℕ) (at : ℕ) (src : List ℕ) → length (splice out at src) ≡ length out
length-splice [] at src = refl
length-splice (x ∷ out) (suc at) src = ap suc (length-splice out at src)
length-splice (x ∷ out) zero [] = refl
length-splice (x ∷ out) zero (y ∷ src) = ap suc (length-splice out zero src)

pub splice-before :
    (out : List ℕ) (at : ℕ) (src : List ℕ) (i : ℕ)
    → i < at
    → get_elem? (splice out at src) i ≡ get_elem? out i
splice-before [] at src i h = refl
splice-before (x ∷ out) (suc at) src zero h = refl
splice-before (x ∷ out) (suc at) src (suc i) h = splice-before out at src i (omega arith)
splice-before (x ∷ out) zero src i h = elim h [ ]

pub splice-inside :
    (out : List ℕ) (at : ℕ) (src : List ℕ) (i : ℕ)
    → i < length src
    → at + i < length out
    → get_elem? (splice out at src) (at + i) ≡ get_elem? src i
splice-inside [] at src i h lt = absurd (omega arith)
splice-inside (x ∷ out) (suc at) src i h lt =
    let e : suc at + i ≡ suc (at + i) = omega arith in
    rw e (splice-inside out at src i h (omega arith))
splice-inside (x ∷ out) zero [] i h lt = elim h [ ]
splice-inside (x ∷ out) zero (y ∷ src) zero h lt = refl
splice-inside (x ∷ out) zero (y ∷ src) (suc i) h lt =
    let e : 0 + suc i ≡ suc (0 + i) = omega arith in
    rw e (splice-inside out zero src i (omega arith) (omega arith))

pub splice-behind :
    (out : List ℕ) (at : ℕ) (src : List ℕ) (i : ℕ)
    → at + length src ≤ i
    → get_elem? (splice out at src) i ≡ get_elem? out i
splice-behind [] at src i h = refl
splice-behind (x ∷ out) (suc at) src zero h = absurd (omega arith)
splice-behind (x ∷ out) (suc at) src (suc i) h = splice-behind out at src i (omega arith)
splice-behind (x ∷ out) zero [] i h = refl
splice-behind (x ∷ out) zero (y ∷ src) zero h = absurd (omega arith)
splice-behind (x ∷ out) zero (y ∷ src) (suc i) h = splice-behind out zero src i (omega arith)
