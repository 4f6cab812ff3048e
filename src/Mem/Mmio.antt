-- ===== src/Mem/Mmio.antt =====
-- kernel/mem/mmio.c and kernel/mem/mmap.c: the regions of device memory that are mapped, and the
-- mappings of the current process. What is asked of the page tables is kept as a list of requests,
-- the last one first.
use wyrm_os.Base.{
  ℕ, zero, suc, ◌+◌, ◌*◌, ◌%◌, ◌^◌, ◌≤◌, ◌<◌, ◌≡◌, ◌≢◌, ◌∙◌, refl, inl, inr, ap, Bool, true, false,
  Option, none, some, List, [], ◌∷◌, ◌++◌, leb, ◌==◌, ◌&&◌, bit_and, if◌then◌else◌, arith,
  Bool-cases, given,
}
use wyrm_os.Base.Word.{page_size, pages, u64}
mod Tests

abbrev pub mmio_limit : ℕ
mmio_limit = 0xffffff2000000000

-- PM_FL_USER, PM_FL_NOCACHE, PM_FL_WRITABLE, PROT_NONE, PROT_WRITE, MAP_FIXED, MAP_ANONYMOUS
abbrev pub pm_user : ℕ
pm_user = 1

abbrev pub pm_nocache : ℕ
pm_nocache = 2

abbrev pub pm_writable : ℕ
pm_writable = 4

abbrev pub prot_none : ℕ
prot_none = 0

abbrev pub prot_write : ℕ
prot_write = 2

abbrev pub map_fixed : ℕ
map_fixed = 1

abbrev pub map_anonymous : ℕ
map_anonymous = 8

-- `iomap_region`
pub record Region : Type 0 where
  pub phys : ℕ
  pub addr : ℕ

-- Pages that the page tables map, or one page that they no longer map
pub data Request : Type 0 where
  map_pages : (vaddr count phys flags : ℕ) → Request
  unmap : (vaddr : ℕ) → Request

-- `__mmio_start` and `__iomapped_regions`
pub record Mmio : Type 0 where
  pub mmio_start : ℕ
  pub regions : List Region
  pub requests : List Request

-- `__try_get_present`; 0 is NULL.
abbrev pub try_get_present : List Region → (phys : ℕ) → ℕ
try_get_present [] phys = 0
try_get_present (r ∷ rs) phys = if r.phys == phys then r.addr else try_get_present rs phys

-- A new region at `__mmio_start`
abbrev pub new_region : (phys size : ℕ) → Mmio → Mmio
new_region phys size s = record {
  mmio_start = u64 (s.mmio_start + pages size * page_size);
  regions = s.regions ++ (record { phys = phys; addr = s.mmio_start } ∷ []);
  requests = map_pages s.mmio_start (pages size) phys pm_nocache ∷ s.requests;
}

pub k_mem_iomap : (phys size : ℕ) → Mmio → ℕ × Mmio
k_mem_iomap phys size s =
    if leb mmio_limit s.mmio_start
    then (0, s)
    else if try_get_present s.regions phys == 0
    then (s.mmio_start, new_region phys size s)
    else (try_get_present s.regions phys, s)

-- `mmap_block`
pub record Block : Type 0 where
  pub start : ℕ
  pub size : ℕ
  pub flags : ℕ
  pub fd : ℕ
  pub offset : ℕ

-- `mmap_start` and `mmap` of the current process
pub record Space : Type 0 where
  pub mmap_start : ℕ
  pub blocks : List Block
  pub requests : List Request

-- PM_FL_USER, and PM_FL_WRITABLE for PROT_WRITE
abbrev pub page_flags : (prot : ℕ) → ℕ
page_flags prot = if bit_and prot prot_write == 0 then pm_user else pm_user + pm_writable

-- The block at a start that is chosen, with its pages unless PROT_NONE is asked for
abbrev pub add_block : Space → Block → (prot : ℕ) → Option ℕ × Space
add_block s b prot = (
  some b.start,
  record s {
    blocks = s.blocks ++ (b ∷ []);
    requests =
        if prot == prot_none
        then s.requests
        else map_pages b.start (pages b.size) 0 (page_flags prot) ∷ s.requests;
  },
)

-- `k_mem_mmap`: the start of the block, `none` for NULL
pub k_mem_mmap : (start size flags prot fd offset : ℕ) → Space → Option ℕ × Space
k_mem_mmap start size flags prot fd offset s =
    let block : ℕ → Block =
      λ at. record { start = at; size = size; flags = flags; fd = fd; offset = offset } in
    if start == 0
    then if bit_and flags map_fixed == 0
      then if bit_and flags map_anonymous == 0
        then add_block s (block 0) prot
        else add_block (record s { mmap_start = u64 (s.mmap_start + pages size * page_size) })
            (block s.mmap_start) prot
      else (none, s)
    else add_block s (block start) prot

-- `__find_existing_mmap` and list_delete: the block and the others
abbrev pub take_block : (start size : ℕ) → List Block → Option (Block × List Block)
take_block start size [] = none
take_block start size (b ∷ bs) =
    if (b.start == start) && (b.size == size)
    then some (b, bs)
    else elim (take_block start size bs) [ none ↦ none | some (c, rest) ↦ some (c, b ∷ rest) ]

abbrev pub unmap_pages : (n : ℕ) → (at : ℕ) → List Request → List Request
unmap_pages zero at requests = requests
unmap_pages (suc n) at requests = unmap_pages n (u64 (at + page_size)) (unmap at ∷ requests)

pub k_mem_munmap : (start size : ℕ) → Space → Space
k_mem_munmap start size s = elim (take_block start size s.blocks) [
  | none ↦ s
  | some (b, rest) ↦ record s {
    blocks = rest;
    requests = unmap_pages (pages size) b.start s.requests;
  }
]

-- Regions at addresses below `__mmio_start`, none at NULL
abbrev pub Below : (bound : ℕ) → List Region → Type 0
Below bound [] = Unit
Below bound (r ∷ rs) = (0 < r.addr) × (r.addr < bound) × Below bound rs

Below-le : (b b' : ℕ) (rs : List Region) → b ≤ b' → Below b rs → Below b' rs
Below-le b b' [] le below = tt
Below-le b b' (r ∷ rs) le (pos', lt, below) = (pos', omega arith, Below-le b b' rs le below)

Below-append :
    (b : ℕ) (rs : List Region) (r : Region)
    → Below b rs
    → 0 < r.addr
    → r.addr < b
    → Below b (rs ++ (r ∷ []))
Below-append b [] r below pos' lt = (pos', lt, tt)
Below-append b (x ∷ rs) r (p, q, below) pos' lt = (p, q, Below-append b rs r below pos' lt)

present-here :
    (b : ℕ) (rs : List Region) (r : Region)
    → Below b rs
    → try_get_present rs r.phys ≡ 0
    → try_get_present (rs ++ (r ∷ [])) r.phys ≡ r.addr
present-here b [] r below absent = let e : (r.phys == r.phys) ≡ true = ground arith in rw e refl
present-here b (x ∷ rs) r (p, q, below) absent = elim (Bool-cases (x.phys == r.phys)) [
  | inl e ↦ let z : x.addr ≡ 0 = rw e at absent in absurd (omega arith)
  | inr e ↦ rw e (present-here b rs r below (rw e at absent))
]

present-other :
    (rs : List Region) (r : Region) (phys : ℕ)
    → phys ≢ r.phys
    → try_get_present (rs ++ (r ∷ [])) phys ≡ try_get_present rs phys
present-other [] r phys ne = let e : (r.phys == phys) ≡ false = ground arith in rw e refl
present-other (x ∷ rs) r phys ne = elim (Bool-cases (x.phys == phys)) [
  | inl e ↦ rw e refl
  | inr e ↦ rw e (present-other rs r phys ne)
]

-- k_mem_iomap of at least one page, while addresses are left below MMIO_END and below 2 ^ 64, keeps
-- every region below `__mmio_start`: it gives the region of the physical address, from then on the
-- same, a new one lies at or above all the others, and the regions of other physical addresses stay.
pub k_mem_iomap-Below :
    (phys size : ℕ) (s : Mmio)
    → 0 < s.mmio_start
    → s.mmio_start < mmio_limit
    → 0 < pages size
    → s.mmio_start + pages size * page_size < 2 ^ 64
    → Below s.mmio_start s.regions
    → (a : ℕ) × (s' : Mmio) × (k_mem_iomap phys size s ≡ (a, s'))
      × (a ≢ 0)
      × (s.mmio_start ≤ s'.mmio_start)
      × (try_get_present s'.regions phys ≡ a)
      × ((q : ℕ) → q ≢ phys → try_get_present s'.regions q ≡ try_get_present s.regions q)
      × Below s'.mmio_start s'.regions
unfolding k_mem_iomap
k_mem_iomap-Below phys size s pos' room some_pages fits below =
    let free : leb mmio_limit s.mmio_start ≡ false = ground arith in
    elim (Bool-cases (try_get_present s.regions phys == 0)) [
      | inl e ↦
          let absent : try_get_present s.regions phys ≡ 0 = ground arith in
          let up : u64 (s.mmio_start + pages size * page_size)
              ≡ s.mmio_start + pages size * page_size =
            omega arith in
          let r : Region = record { phys = phys; addr = s.mmio_start } in
          (
            s.mmio_start,
            new_region phys size s,
            rw (k_mem_iomap, free, e) refl,
            λ z. omega arith,
            omega arith,
            present-here s.mmio_start s.regions r below absent,
            λ q ne. present-other s.regions r q ne,
            rw up (
                Below-append (s.mmio_start + pages size * page_size) s.regions r
                  (Below-le s.mmio_start (s.mmio_start + pages size * page_size) s.regions
                    (omega arith) below)
                  pos' (omega arith)),
          )
      | inr e ↦ (
        try_get_present s.regions phys,
        s,
        rw (k_mem_iomap, free, e) refl,
        λ z. ground arith,
        omega arith,
        refl,
        λ q ne. refl,
        below,
      )
    ]
