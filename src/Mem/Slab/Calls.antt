-- ===== src/Mem/Slab/Calls.antt =====
-- kmalloc and kfree of kernel/mem/alloc.c on the small sizes.
use wyrm_os.Base.{
  ℕ, zero, suc, ◌+◌, ◌-◌, ◌%◌, ◌^◌, ◌≤◌, ◌<◌, ◌≡◌, ◌≢◌, ◌∙◌, ap, refl, true, false, none, some,
  List, ◌∷◌, ◌==◌, arith, given, ltb, leb,
}
use wyrm_os.Base.Word.{page_size}
use wyrm_os.Mem.Heap.{
  Heap, write, max_slab, min_slab, big_slab, heap_start, heap_end, slab_magic, size_at, free_at,
  next_at, slab_header, slab_index, slab_for_size, slab_push, tail, insert_slab, get_slab, kmalloc,
  kfree,
}
use wyrm_os.Mem.Slab.FreeList.{Items, FreeList, other_word, slab_pop-FreeList, slab_push-FreeList}
use wyrm_os.Mem.Slab.Sizes.{slab_for_size-least}

-- A slab in a page of the heap, of a small size, whose free list is the items
abbrev pub Slab : Heap → (s : ℕ) → (size : ℕ) → List ℕ → Type 0
Slab h s size items =
    (s % page_size ≡ 0)
    × (heap_start ≤ s)
    × (s + page_size ≤ heap_end)
    × (h.memory s ≡ slab_magic)
    × (h.memory (size_at s) ≡ size)
    × (size ≤ max_slab)
    × FreeList h.memory s items

get_slab-tail :
    (rounds bytes r : ℕ) (h : Heap)
    → 0 < bytes
    → bytes ≤ 2 ^ max_slab
    → tail rounds h.memory (h.slabs (slab_for_size bytes - min_slab)) ≡ some r
    → r ≢ 0
    → h.memory (free_at r) ≢ 0
    → get_slab rounds bytes h ≡ some (r, h)
unfolding get_slab slab_index
get_slab-tail rounds bytes r h pos small last nr nf =
    given (slab_for_size-least bytes pos small) λ (low, high, fits, least).
      let index : slab_index (slab_for_size bytes) ≡ some (slab_for_size bytes - min_slab) =
        ground arith in
      let big : (slab_for_size bytes == big_slab) ≡ false = ground arith in
      let a : (r == 0) ≡ false = ground arith in
      let b : (h.memory (free_at r) == 0) ≡ false = ground arith in
      rw (get_slab, index, big, last, a, b) refl

-- kmalloc of 1 to 1024 bytes, where the last slab of the size class has free entries, gives the
-- first of them, takes it off the slab's free list, and changes no other word.
pub kmalloc-Slab :
    (rounds bytes s x : ℕ) (xs : List ℕ) (h : Heap)
    → 0 < bytes
    → bytes ≤ 2 ^ max_slab
    → tail rounds h.memory (h.slabs (slab_for_size bytes - min_slab)) ≡ some s
    → Slab h s (slab_for_size bytes) (x ∷ xs)
    → (h' : Heap) × (kmalloc rounds bytes h ≡ some (x, h'))
      × FreeList h'.memory s xs
      × ((a : ℕ) → a ≢ free_at s → h'.memory a ≡ h.memory a)
unfolding kmalloc
kmalloc-Slab rounds bytes s x xs h pos small last (aligned, low, high, magic, size, class, free) =
    given (slab_pop-FreeList h s x xs (omega arith) free) λ (h', pop, free', same).
      let z : (bytes == 0) ≡ false = ground arith in
      let first : h.memory (free_at s) ≡ x = free.0.0 in
      let beyond : s + slab_header ≤ x = free.1.0 in
      let found =
        get_slab-tail rounds bytes s h pos small last (λ q. omega arith) (λ q. omega arith) in
      (h', rw (kmalloc, z, found) (ap some pop), free', same)

slab_push-same :
    (s x : ℕ) (h : Heap) → (a : ℕ) → a ≢ x → a ≢ free_at s → (slab_push s x h).memory a ≡ h.memory a
unfolding slab_push
slab_push-same s x h a ne ne' =
    other_word (write x (h.memory (free_at s)) h).memory (free_at s) x a ne'
    ∙ other_word h.memory x (h.memory (free_at s)) a ne

slab_push-slabs : (s x : ℕ) (h : Heap) (i : ℕ) → (slab_push s x h).slabs i ≡ h.slabs i
unfolding slab_push
slab_push-slabs s x h i = refl

kfree-slab_push :
    (rounds s x : ℕ) (h : Heap)
    → s % page_size ≡ 0
    → heap_start ≤ s
    → s + page_size ≤ heap_end
    → h.memory s ≡ slab_magic
    → h.memory (size_at s) ≤ max_slab
    → s + slab_header ≤ x
    → x + 8 ≤ s + page_size
    → kfree rounds x h ≡ some (slab_push s x h)
unfolding kfree
kfree-slab_push rounds s x h aligned low high magic class after before =
    let a : ltb x heap_start ≡ false = ground arith in
    let b : leb heap_end x ≡ false = ground arith in
    let c : (x % page_size == 0) ≡ false = ground arith in
    let page : x - x % page_size ≡ s = omega arith in
    let d : ltb max_slab (h.memory (size_at s)) ≡ false = ground arith in
    rw (kfree, a, b, c, page, magic, d) refl

-- kfree of an entry of a small slab that is not free puts it on top of the slab's free list, and
-- changes no other word than the entry's first and the slab's `free`.
pub kfree-Slab :
    (rounds s size x : ℕ) (xs : List ℕ) (h : Heap)
    → Slab h s size xs
    → Items s (x ∷ xs)
    → (h' : Heap) × (kfree rounds x h ≡ some h')
      × Slab h' s size (x ∷ xs)
      × ((i : ℕ) → h'.slabs i ≡ h.slabs i)
      × ((a : ℕ) → a ≢ x → a ≢ free_at s → h'.memory a ≡ h.memory a)
kfree-Slab rounds s size x xs h (aligned, low, high, magic, size', class, free)
      (after, before, out, is) =
    let same = slab_push-same s x h in
    (
      slab_push s x h,
      kfree-slab_push rounds s x h aligned low high magic (omega arith) after before,
      (
        aligned,
        low,
        high,
        same s (λ q. omega arith) (λ q. omega arith) ∙ magic,
        same (size_at s) (λ q. omega arith) (λ q. omega arith) ∙ size',
        class,
        slab_push-FreeList h s x xs free (after, before, out, is),
      ),
      slab_push-slabs s x h,
      same,
    )

only_tail : (rounds s : ℕ) (m : ℕ → ℕ) → s ≢ 0 → m (next_at s) ≡ 0 → tail (suc rounds) m s ≡ some s
unfolding tail
only_tail rounds s m nz e = let z : (s == 0) ≡ false = ground arith in rw (tail, z, e) refl

-- kfree of an entry and then kmalloc of the same size class, where the slab is the only one of its
-- class, gives the entry again and leaves the slab's free list as it was.
pub kfree-kmalloc :
    (rounds bytes s x : ℕ) (xs : List ℕ) (h : Heap)
    → 0 < bytes
    → bytes ≤ 2 ^ max_slab
    → Slab h s (slab_for_size bytes) xs
    → Items s (x ∷ xs)
    → h.slabs (slab_for_size bytes - min_slab) ≡ s
    → h.memory (next_at s) ≡ 0
    → (h' h'' : Heap) × (kfree rounds x h ≡ some h')
      × (kmalloc (suc rounds) bytes h' ≡ some (x, h''))
      × FreeList h''.memory s xs
kfree-kmalloc rounds bytes s x xs h pos small slab items only end_ =
    given (kfree-Slab rounds s (slab_for_size bytes) x xs h slab items)
      λ (h', freed, slab', lists, same).
        given
          (kmalloc-Slab (suc rounds) bytes s x xs h' pos small
            (ap (tail (suc rounds) h'.memory) (lists (slab_for_size bytes - min_slab) ∙ only)
              ∙ only_tail rounds s h'.memory (λ q. omega (arith, slab.1))
                  (same (next_at s) (λ q. omega (arith, items.0)) (λ q. omega arith) ∙ end_))
            slab')
          λ (h'', got, free, same'). (h', h'', freed, got, free)

tail-cycle : (rounds s : ℕ) (m : ℕ → ℕ) → s ≢ 0 → m (next_at s) ≡ s → tail rounds m s ≡ none
unfolding tail
tail-cycle zero s m nz e = refl
tail-cycle (suc k) s m nz e =
    let z : (s == 0) ≡ false = ground arith in
    let z' : (m (next_at s) == 0) ≡ false = ground arith in rw (z, z', e) (tail-cycle k s m nz e)

-- A large slab that kfree has freed stays in its list. Where it is the only one of the list,
-- __insert_slab of it, when it is used again, makes it its own successor, and from then on no number
-- of rounds is enough for __tail.
pub insert_slab-cycle :
    (rounds s : ℕ) (h : Heap)
    → s ≢ 0
    → max_slab < h.memory (size_at s)
    → h.slabs (big_slab - min_slab) ≡ s
    → h.memory (next_at s) ≡ 0
    → (h' : Heap) × (insert_slab (suc rounds) s h ≡ some h')
      × ((k : ℕ) → tail k h'.memory (h'.slabs (big_slab - min_slab)) ≡ none)
unfolding insert_slab slab_index
insert_slab-cycle rounds s h nz big only end_ =
    let a : ltb (h.memory (size_at s)) min_slab ≡ false = ground arith in
    let b : leb big_slab (h.memory (size_at s)) ≡ true = ground arith in
    let c : (s == 0) ≡ false = ground arith in
    let d : (next_at s == next_at s) ≡ true = ground arith in
    (
      write (next_at s) s h,
      rw (insert_slab, slab_index, a, b, only, c, only_tail rounds s h.memory nz end_) refl,
      λ k. rw only (tail-cycle k s (write (next_at s) s h).memory nz (rw d refl)),
    )
