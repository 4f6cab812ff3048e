-- ===== src/Mem/Slab/FreeList.antt =====
-- The free list of a slab of kernel/mem/alloc.c as a stack of addresses.
use wyrm_os.Base.{
  ℕ, ◌+◌, ◌≤◌, ◌<◌, ◌≡◌, ◌≢◌, refl, true, false, List, [], ◌∷◌, ◌==◌, if◌then◌else◌, arith, ltb,
}
use wyrm_os.Base.Word.{page_size}
use wyrm_os.Mem.Heap.{Heap, write, max_slab, size_at, free_at, slab_header, slab_push, slab_pop}

-- The words at the items lead from `p` to NULL.
abbrev pub Linked : (ℕ → ℕ) → (p : ℕ) → List ℕ → Type 0
Linked m p [] = p ≡ 0
Linked m p (x ∷ xs) = (p ≡ x) × Linked m (m x) xs

abbrev pub NotIn : ℕ → List ℕ → Type 0
NotIn x [] = Unit
NotIn x (y ∷ ys) = (x ≢ y) × NotIn x ys

-- Different places for a word in the page of the slab, behind its header
abbrev pub Items : (s : ℕ) → List ℕ → Type 0
Items s [] = Unit
Items s (x ∷ xs) = (s + slab_header ≤ x) × (x + 8 ≤ s + page_size) × NotIn x xs × Items s xs

-- `free` of the slab at `s` is the stack of the items.
abbrev pub FreeList : (ℕ → ℕ) → (s : ℕ) → List ℕ → Type 0
FreeList m s items = Linked m (m (free_at s)) items × Items s items

pub NotIn-low : (s a : ℕ) (items : List ℕ) → Items s items → a < s + slab_header → NotIn a items
NotIn-low s a [] is lt = tt
NotIn-low s a (x ∷ xs) (low, high, out, is) lt = (λ e. omega arith, NotIn-low s a xs is lt)

-- A word that is no item can be written.
pub Linked-write :
    (m : ℕ → ℕ) (a v p : ℕ) (items : List ℕ)
    → NotIn a items
    → Linked m p items
    → Linked (λ b. if b == a then v else m b) p items
Linked-write m a v p [] out e = e
Linked-write m a v p (x ∷ xs) (ne, out) (e, rest) =
    let far : (x == a) ≡ false = ground arith in (e, rw far (Linked-write m a v (m x) xs out rest))

pub other_word : (m : ℕ → ℕ) (a v b : ℕ) → b ≢ a → (if b == a then v else m b) ≡ m b
other_word m a v b ne = let far : (b == a) ≡ false = ground arith in rw far refl

-- slab_pop takes the top of the stack and changes only the slab's `free`, for a slab of the small
-- sizes.
pub slab_pop-FreeList :
    (h : Heap) (s x : ℕ) (xs : List ℕ)
    → h.memory (size_at s) ≤ max_slab
    → FreeList h.memory s (x ∷ xs)
    → (h' : Heap) × (slab_pop s h ≡ (x, h'))
      × FreeList h'.memory s xs
      × ((a : ℕ) → a ≢ free_at s → h'.memory a ≡ h.memory a)
unfolding slab_pop
slab_pop-FreeList h s x xs small ((top, linked), (low, high, out, is)) =
    let self : (free_at s == free_at s) ≡ true = ground arith in
    let small' : ltb max_slab (h.memory (size_at s)) ≡ false = ground arith in
    (
      write (free_at s) (h.memory x) h,
      rw (slab_pop, small', top) refl,
      (
        rw self (
            Linked-write h.memory (free_at s) (h.memory x) (h.memory x) xs
              (NotIn-low s (free_at s) xs is (omega arith)) linked),
        is,
      ),
      other_word h.memory (free_at s) (h.memory x),
    )

-- slab_push of a place that is not on the stack puts it on top.
pub slab_push-FreeList :
    (h : Heap) (s x : ℕ) (xs : List ℕ)
    → FreeList h.memory s xs
    → Items s (x ∷ xs)
    → FreeList ((slab_push s x h).memory) s (x ∷ xs)
unfolding slab_push
slab_push-FreeList h s x xs (linked, is) (low, high, out, is') =
    let self : (free_at s == free_at s) ≡ true = ground arith in
    let far : (x == free_at s) ≡ false = ground arith in
    let same : (x == x) ≡ true = ground arith in
    let first =
      Linked-write h.memory x (h.memory (free_at s)) (h.memory (free_at s)) xs out linked in
    let second =
      Linked-write (write x (h.memory (free_at s)) h).memory (free_at s) x (h.memory (free_at s)) xs
        (NotIn-low s (free_at s) xs is (omega arith)) first in
    ((rw self refl, rw (far, same) second), (low, high, out, is'))
