-- ===== src/Exec/Start/Segments.antt =====
-- The pages of the segments, and the place of the stack behind them.
use wyrm_os.Base.{
  ℕ, zero, suc, ◌+◌, ◌*◌, ◌%◌, ◌^◌, ◌≤◌, ◌<◌, ◌≡◌, ◌∙◌, ap, ◌⊎◌, refl, Bool, true, false, List, [],
  ◌∷◌, ltb, ◌==◌, if◌then◌else◌, arith, Bool-cases, inl, inr, given,
}
use mathlib.Core.Path.{subst}
use wyrm_os.Base.Word.{u64, page_size, pages}
use wyrm_os.Base.Align.{pages_lem}
use wyrm_os.Libc.Bytes.{Bytes}
use wyrm_os.Exec.Start.{
  Segment, Layout, p_type, p_offset, p_vaddr, p_filesz, p_memsz, e_phentsize, e_phoff, e_phnum,
  pt_load, segment_of, segment_end, add_segment, layout_loop, exec_layout,
}

-- The segment's pages hold its bytes, start with a page and end where the segment's end says.
abbrev pub Covered : Segment → Type 0
Covered s = (s.start % page_size ≡ 0) × (s.start ≤ s.vaddr) × (s.vaddr + s.memsz ≤ segment_end s)

abbrev pub AllCovered : List Segment → (limit : ℕ) → Type 0
AllCovered [] limit = Unit {0}
AllCovered (s ∷ ss) limit = Covered s × (segment_end s ≤ limit) × AllCovered ss limit

pages_whole : (v : ℕ) → v + 4095 < 2 ^ 64 → (v ≤ pages v * 4096) × (pages v * 4096 ≤ v + 4095)
pages_whole v fits = rw (pages_lem v fits) (omega arith, omega arith)

segment_of-Covered :
    (m : Bytes) (p : ℕ)
    → p_vaddr m p + p_memsz m p + 2 * page_size < 2 ^ 64
    → Covered (segment_of m p)
unfolding segment_of
segment_of-Covered m p fits = elim (Bool-cases (p_vaddr m p % page_size == 0)) [
  | inl e ↦
      let w : (p_memsz m p ≤ pages (p_memsz m p) * 4096)
          × (pages (p_memsz m p) * 4096 ≤ p_memsz m p + 4095) =
        pages_whole (p_memsz m p) (omega arith) in
      let z : p_vaddr m p % page_size ≡ 0 = ground arith in rw e (z, omega arith, omega arith)
  | inr e ↦
      let all : u64 (p_memsz m p + p_vaddr m p % page_size)
          ≡ p_memsz m p + p_vaddr m p % page_size =
        omega arith in
      let w : (p_memsz m p + p_vaddr m p % page_size
            ≤ pages (p_memsz m p + p_vaddr m p % page_size) * 4096)
          × (pages (p_memsz m p + p_vaddr m p % page_size) * 4096
              ≤ p_memsz m p + p_vaddr m p % page_size + 4095) =
        pages_whole (p_memsz m p + p_vaddr m p % page_size) (omega arith) in
      rw (e, all) (omega arith, omega arith, omega arith)
]

AllCovered-le : (ss : List Segment) (a b : ℕ) → a ≤ b → AllCovered ss a → AllCovered ss b
AllCovered-le [] a b le all = tt
AllCovered-le (s ∷ ss) a b le (c, h, all) = (c, omega arith, AllCovered-le ss a b le all)

add_segment-AllCovered :
    (s : Segment) (l : Layout)
    → Covered s
    → AllCovered l.segments l.exec_end
    → AllCovered (add_segment s l).segments (add_segment s l).exec_end
unfolding add_segment
add_segment-AllCovered s l c all = elim (Bool-cases (ltb l.exec_end (segment_end s))) [
  | inl e ↦
      rw e (c, omega arith, AllCovered-le l.segments l.exec_end (segment_end s) (ground arith) all)
  | inr e ↦ rw e (c, ground arith, all)
]

-- The segments of the program headers from `phdr` on end below 2 ^ 64, with two pages to spare.
abbrev pub Fits : (left : ℕ) → Bytes → (elf phdr : ℕ) → Type 0
Fits zero m elf p = Unit {0}
Fits (suc left) m elf p =
    ((p_type m p == pt_load) ≡ true → p_vaddr m p + p_memsz m p + 2 * page_size < 2 ^ 64)
    × Fits left m elf (u64 (p + e_phentsize m elf))

either :
    (b : Bool) (x l : Layout)
    → (b ≡ true → AllCovered x.segments x.exec_end)
    → AllCovered l.segments l.exec_end
    → AllCovered (if b then x else l).segments (if b then x else l).exec_end
either true x l h all = h refl
either false x l h all = all

layout_loop-AllCovered :
    (left : ℕ) (m : Bytes) (elf p : ℕ) (l : Layout)
    → Fits left m elf p
    → AllCovered l.segments l.exec_end
    → AllCovered (layout_loop left m elf p l).segments (layout_loop left m elf p l).exec_end
unfolding layout_loop
layout_loop-AllCovered zero m elf p l f all = all
layout_loop-AllCovered (suc left) m elf p l (f, fs) all = layout_loop-AllCovered left m elf _ _ fs (
    either (p_type m p == pt_load) _ l
      (λ e. add_segment-AllCovered (segment_of m p) l (segment_of-Covered m p (f e)) all) all)

-- The header number `i`
abbrev pub header : Bytes → (elf : ℕ) → (i : ℕ) → ℕ
header m elf zero = u64 (elf + e_phoff m elf)
header m elf (suc i) = u64 (header m elf i + e_phentsize m elf)

abbrev pub Has : Segment → List Segment → Type 0
Has s [] = ⊥
Has s (x ∷ xs) = (s ≡ x) ⊎ Has s xs

-- The program header `p` has a segment, with its address, its sizes and its place in the file, in whole
-- pages that are mapped and end where `exec_end` says at most.
pub record Loaded (m : Bytes) (p : ℕ) (l : Layout) : Type 0 where
  pub segment : Segment
  pub listed : Has segment l.segments
  pub vaddr : segment.vaddr ≡ p_vaddr m p
  pub memsz : segment.memsz ≡ p_memsz m p
  pub offset : segment.offset ≡ p_offset m p
  pub filesz : segment.filesz ≡ p_filesz m p
  pub covered : Covered segment
  pub ends : segment_end segment ≤ l.exec_end

add_segment-new :
    (m : Bytes) (p : ℕ) (l : Layout)
    → p_vaddr m p + p_memsz m p + 2 * page_size < 2 ^ 64
    → Loaded m p (add_segment (segment_of m p) l)
unfolding add_segment segment_of
add_segment-new m p l fits = record {
  segment = segment_of m p;
  listed = inl refl;
  vaddr = refl;
  memsz = refl;
  offset = refl;
  filesz = refl;
  covered = segment_of-Covered m p fits;
  ends = elim (Bool-cases (ltb l.exec_end (segment_end (segment_of m p)))) [
    | inl e ↦ rw e (omega arith)
    | inr e ↦ rw e (ground arith)
  ];
}

add_segment-Loaded :
    (m : Bytes) (p : ℕ) (s : Segment) (l : Layout) → Loaded m p l → Loaded m p (add_segment s l)
unfolding add_segment
add_segment-Loaded m p s l d = record {
  segment = d.segment;
  listed = inr d.listed;
  vaddr = d.vaddr;
  memsz = d.memsz;
  offset = d.offset;
  filesz = d.filesz;
  covered = d.covered;
  ends = given d.ends λ e. elim (Bool-cases (ltb l.exec_end (segment_end s))) [
    | inl b ↦ rw b (ground arith)
    | inr b ↦ rw b e
  ];
}

choice-Loaded :
    (b : Bool) (m : Bytes) (p : ℕ) (s : Segment) (l : Layout)
    → Loaded m p l
    → Loaded m p (if b then add_segment s l else l)
choice-Loaded true m p s l d = add_segment-Loaded m p s l d
choice-Loaded false m p s l d = d

-- What one round has loaded, the rounds that follow keep.
layout_loop-keeps :
    (left : ℕ) (m : Bytes) (elf p q : ℕ) (l : Layout)
    → Loaded m q l
    → Loaded m q (layout_loop left m elf p l)
unfolding layout_loop
layout_loop-keeps zero m elf p q l d = d
layout_loop-keeps (suc left) m elf p q l d =
    layout_loop-keeps left m elf (u64 (p + e_phentsize m elf)) q _
      (choice-Loaded (p_type m p == pt_load) m q (segment_of m p) l d)

-- The header that the loop is at, `i` rounds after `p`
abbrev from : Bytes → (elf : ℕ) → (p i : ℕ) → ℕ
from m elf p zero = p
from m elf p (suc i) = from m elf (u64 (p + e_phentsize m elf)) i

header-from :
    (m : Bytes) (elf p i : ℕ) → from m elf p (suc i) ≡ u64 (from m elf p i + e_phentsize m elf)
header-from m elf p zero = refl
header-from m elf p (suc i) = header-from m elf (u64 (p + e_phentsize m elf)) i

from_lem : (m : Bytes) (elf i : ℕ) → from m elf (u64 (elf + e_phoff m elf)) i ≡ header m elf i
from_lem m elf zero = refl
from_lem m elf (suc i) =
    header-from m elf (u64 (elf + e_phoff m elf)) i
    ∙ ap (λ (a : ℕ). u64 (a + e_phentsize m elf)) (from_lem m elf i)

layout_loop-Loaded :
    (left : ℕ) (m : Bytes) (elf p : ℕ) (l : Layout) (i : ℕ)
    → Fits left m elf p
    → i < left
    → (p_type m (from m elf p i) == pt_load) ≡ true
    → Loaded m (from m elf p i) (layout_loop left m elf p l)
unfolding layout_loop
layout_loop-Loaded zero m elf p l i f low load = absurd (omega arith)
layout_loop-Loaded (suc left) m elf p l zero (f, fs) low load =
    layout_loop-keeps left m elf (u64 (p + e_phentsize m elf)) p _
      (rw load (add_segment-new m p l (f load)))
layout_loop-Loaded (suc left) m elf p l (suc i) (f, fs) low load =
    layout_loop-Loaded left m elf (u64 (p + e_phentsize m elf)) _ i fs (omega arith) load

-- For each program header of type PT_LOAD that ends more than two pages below 2 ^ 64, k_elf_exec has a
-- segment with the header's address, sizes and place in the file, in whole pages that hold it; all its
-- segments lie in such pages, and the stack begins where none of them ends later.
pub exec_layout-AllCovered :
    (m : Bytes) (elf i : ℕ)
    → Fits (e_phnum m elf) m elf (u64 (elf + e_phoff m elf))
    → i < e_phnum m elf
    → (p_type m (header m elf i) == pt_load) ≡ true
    → Loaded m (header m elf i) (exec_layout m elf)
      × AllCovered (exec_layout m elf).segments (exec_layout m elf).exec_end
unfolding exec_layout
exec_layout-AllCovered m elf i f low load =
    let at : from m elf (u64 (elf + e_phoff m elf)) i ≡ header m elf i = from_lem m elf i in
    (
      subst (λ (p : ℕ). Loaded m p (exec_layout m elf)) at
          (layout_loop-Loaded (e_phnum m elf) m elf _ _ i f low
            (ap (λ (p : ℕ). p_type m p == pt_load) at ∙ load)),
      layout_loop-AllCovered (e_phnum m elf) m elf _ _ f tt,
    )
