-- ===== src/Mem/Heap.antt =====
-- kernel/mem/alloc.c: the kernel's heap of slabs, over a memory that gives each address its word.
-- `none` is a panic or an assert that fails; the loops over lists of slabs take a bound of rounds.
-- Mapping pages changes no word.
use wyrm_os.Base.{
  ℕ, zero, suc, ◌+◌, ◌-◌, ◌*◌, ◌/◌, ◌%◌, ◌^◌, bit_and, ◌&&◌, not, Option, none, some, ltb, leb,
  ◌==◌, if◌then◌else◌,
}
use wyrm_os.Base.Fail.{◌>>=◌}
use wyrm_os.Base.Word.{page_size, u64, pages}

abbrev pub min_slab : ℕ
min_slab = 3

abbrev pub max_slab : ℕ
max_slab = 10

abbrev pub big_slab : ℕ
big_slab = max_slab + 1

abbrev pub slab_amount : ℕ
slab_amount = big_slab - min_slab + 1

abbrev pub slab_magic : ℕ
slab_magic = 0xDEADBEEF

abbrev pub heap_start : ℕ
heap_start = 0xfffff00000000000

abbrev pub heap_end : ℕ
heap_end = 0xffffff0000000000

-- `struct slab` at an address: `magic`, `size`, `free` and `next`
abbrev pub size_at : ℕ → ℕ
size_at s = s + 8

abbrev pub free_at : ℕ → ℕ
free_at s = s + 16

abbrev pub next_at : ℕ → ℕ
next_at s = s + 24

abbrev pub slab_header : ℕ
slab_header = 32

-- `heap`, `slabs` by their index, `free_slabs`, and the memory
pub record Heap : Type 0 where
  pub heap : ℕ
  pub slabs : ℕ → ℕ
  pub free_slabs : ℕ
  pub memory : ℕ → ℕ

abbrev pub write : ℕ → ℕ → Heap → Heap
write a v h = record h { memory = λ b. if b == a then v else h.memory b }

-- `__sbrk`
unfoldable pub sbrk : (n : ℕ) → Heap → Option (ℕ × Heap)
sbrk n h =
    if n == 0
    then none
    else if ltb heap_end (u64 (h.heap + n * page_size))
    then none
    else some (h.heap, record h { heap = u64 (h.heap + n * page_size) })

-- `64 - __builtin_clzl(size)`
unfoldable pub bit_length : (bits : ℕ) → ℕ → ℕ
bit_length zero n = 0
bit_length (suc k) n = if n == 0 then 0 else suc (bit_length k (n / 2))

-- `__slab_for_size`
unfoldable pub slab_for_size : ℕ → ℕ
slab_for_size size =
    if ltb (2 ^ max_slab) size
    then big_slab
    else if leb size (2 ^ min_slab)
    then min_slab
    else bit_length 64 size - (if bit_and size (size - 1) == 0 then 1 else 0)

-- `__slab_index`
unfoldable pub slab_index : ℕ → Option ℕ
slab_index slab =
    if ltb slab min_slab
    then none
    else if leb big_slab slab
    then some (big_slab - min_slab)
    else some (slab - min_slab)

-- `__tail`
unfoldable pub tail : (rounds : ℕ) → (ℕ → ℕ) → (r : ℕ) → Option ℕ
tail zero m r = none
tail (suc k) m r =
    if (r == 0) then some 0 else if m (next_at r) == 0 then some r else tail k m (m (next_at r))

-- `__insert_slab`
unfoldable pub insert_slab : (rounds : ℕ) → (slab : ℕ) → Heap → Option Heap
insert_slab rounds slab h = slab_index (h.memory (size_at slab)) >>= λ index.
    if h.slabs index == 0
    then some (record h { slabs = λ i. if i == index then slab else h.slabs i })
    else (tail rounds h.memory (h.slabs index) >>= λ last. some (write (next_at last) slab h))

-- `while(parent && parent > slab)`: `prev` and `parent` behind the loop
unfoldable pub free_place : (rounds : ℕ) → (ℕ → ℕ) → (slab prev parent : ℕ) → Option (ℕ × ℕ)
free_place zero m slab prev parent = none
free_place (suc k) m slab prev parent =
    if not (parent == 0) && ltb slab parent
    then free_place k m slab parent (m (next_at parent))
    else some (prev, parent)

-- `__insert_free_slab`
unfoldable pub insert_free_slab : (rounds : ℕ) → (slab : ℕ) → Heap → Option Heap
insert_free_slab rounds slab h =
    if h.free_slabs == 0
    then some (record h { free_slabs = slab })
    else (free_place rounds h.memory slab 0 h.free_slabs >>= λ (prev, parent).
        if parent == 0
        then some (write (next_at prev) slab h)
        else some
            (write (next_at parent) slab (write (next_at slab) (h.memory (next_at parent)) h)))

-- `__try_get_free_slab`; the result 0 is NULL.
unfoldable pub try_get_free_slab : Heap → ℕ × Heap
try_get_free_slab h =
    if h.free_slabs == 0
    then (0, h)
    else (h.free_slabs, record h { free_slabs = h.memory (next_at h.free_slabs) })

-- The loop of __try_get_big_free_slab: `slab`, `head`, `tail` and `found_size` behind it
unfoldable pub big_run :
    (rounds : ℕ) → (ℕ → ℕ) → (size slab head last found_size iterator : ℕ) → Option (ℕ × ℕ × ℕ × ℕ)
big_run zero m size slab head last found_size iterator = none
big_run (suc k) m size slab head last found_size iterator =
    if slab == 0
    then some (slab, head, last, found_size)
    else let found : ℕ =
        if found_size == 0 then page_size - slab_header else found_size + page_size in
      let after : ℕ = m (next_at iterator) in
      if leb size found
      then some (slab, head, after, found)
      else if iterator + page_size == after
      then big_run k m size slab head last found after
      else big_run k m size after slab last 0 after

-- `__try_get_big_free_slab`
unfoldable pub try_get_big_free_slab : (rounds : ℕ) → (size : ℕ) → Heap → Option (ℕ × Heap)
try_get_big_free_slab rounds size h =
    if h.free_slabs == 0
    then some (0, h)
    else (big_run rounds h.memory size h.free_slabs 0 (h.memory (next_at h.free_slabs)) 0
          h.free_slabs
        >>= λ (slab, head, last, found).
            if leb size found
            then some (
              slab,
              if head == 0 then record h { free_slabs = last } else write (next_at head) last h,
            )
            else some (0, h))

-- The loop of __free_big_slab over `n` pages from `s` on
unfoldable pub free_pages : (rounds : ℕ) → (n : ℕ) → (s : ℕ) → Heap → Option Heap
free_pages rounds zero s h = some h
free_pages rounds (suc n) s h =
    insert_free_slab rounds s (write (next_at s) 0 (write (free_at s) 0 (write (size_at s) 0 h)))
    >>= λ h'. free_pages rounds n (u64 (s + page_size)) h'

-- `__free_big_slab`
unfoldable pub free_big_slab : (rounds : ℕ) → (s : ℕ) → Heap → Option Heap
free_big_slab rounds s h = free_pages rounds (pages (u64 (h.memory (size_at s) + slab_header))) s h

-- `__slab_push`
unfoldable pub slab_push : (slab addr : ℕ) → Heap → Heap
slab_push slab addr h = write (free_at slab) addr (write addr (h.memory (free_at slab)) h)

-- `__slab_pop`
unfoldable pub slab_pop : (slab : ℕ) → Heap → ℕ × Heap
slab_pop slab h =
    let item : ℕ = h.memory (free_at slab) in
    (
      item,
      if ltb max_slab (h.memory (size_at slab))
          then write (free_at slab) 0 h
          else write (free_at slab) (h.memory item) h,
    )

-- The loop of __allocate_slab over the entries from `e` on; `stack[e << index]` stands at
-- `stack + 8 * (e << index)`.
unfoldable pub link_entries : (n : ℕ) → (e index stack : ℕ) → Heap → Heap
link_entries zero e index stack h = h
link_entries (suc n) e index stack h =
    link_entries n (e + 1) index stack
      (write (stack + 8 * (e * 2 ^ index)) (stack + 8 * ((e + 1) * 2 ^ index)) h)

-- What __allocate_slab does with its page
unfoldable pub make_slab : (size : ℕ) → (s : ℕ) → Heap → Option Heap
make_slab size s h = slab_index size >>= λ index.
    let stack : ℕ = s + slab_header in
    let entries : ℕ = (page_size - slab_header) / 2 ^ size - 1 in
    some (
      write (next_at s) 0 (
        write (stack + 8 * (entries * 2 ^ index)) 0 (
          link_entries entries 0 index stack
            (write (free_at s) stack (write (size_at s) size (write s slab_magic h))))))

-- `__allocate_slab`
unfoldable pub allocate_slab : (size : ℕ) → Heap → Option (ℕ × Heap)
allocate_slab size h =
    if ltb max_slab size
    then none
    else let (s, h') = try_get_free_slab h in
      (if s == 0 then sbrk 1 h' else some (s, h')) >>= λ (page, h'').
      make_slab size page h'' >>= λ made. some (page, made)

-- `__allocate_big_slab`
unfoldable pub allocate_big_slab : (rounds : ℕ) → (size : ℕ) → Heap → Option (ℕ × Heap)
allocate_big_slab rounds size h = try_get_big_free_slab rounds size h >>= λ (s, h').
    (if s == 0 then sbrk (pages (u64 (size + slab_header))) h' else some (s, h')) >>= λ (page, h'').
    some (
      page,
      write (next_at page) 0 (
          write (free_at page) (page + slab_header)
            (write (size_at page) size (write page slab_magic h''))),
    )

-- A new slab of a size, put into its list
unfoldable pub new_slab : (rounds : ℕ) → (size bytes : ℕ) → Heap → Option (ℕ × Heap)
new_slab rounds size bytes h =
    (if size == big_slab then allocate_big_slab rounds bytes h else allocate_slab size h)
    >>= λ (r, h'). insert_slab rounds r h' >>= λ h''. some (r, h'')

-- `__get_slab`
unfoldable pub get_slab : (rounds : ℕ) → (bytes : ℕ) → Heap → Option (ℕ × Heap)
get_slab rounds bytes h =
    let size : ℕ = slab_for_size bytes in
    slab_index size >>= λ index.
    (if size == big_slab then some 0 else tail rounds h.memory (h.slabs index)) >>= λ r.
    if r == 0
    then new_slab rounds size bytes h
    else if h.memory (free_at r) == 0
    then new_slab rounds size bytes h
    else some (r, h)

unfoldable pub kmalloc : (rounds : ℕ) → (bytes : ℕ) → Heap → Option (ℕ × Heap)
kmalloc rounds bytes h =
    if bytes == 0 then none else (get_slab rounds bytes h >>= λ (s, h'). some (slab_pop s h'))

unfoldable pub kmalloc_aligned : (rounds : ℕ) → (bytes alignment : ℕ) → Heap → Option (ℕ × Heap)
kmalloc_aligned rounds bytes alignment h =
    kmalloc rounds (u64 (bytes + alignment + 2 ^ 64 - slab_header)) h >>= λ (result, h').
    let out : ℕ = u64 (result + alignment + 2 ^ 64 - slab_header) in
    if out % alignment == 0 then some (out, h') else none

unfoldable pub kfree : (rounds : ℕ) → (mem : ℕ) → Heap → Option Heap
kfree rounds mem h =
    if ltb mem heap_start
    then none
    else if leb heap_end mem
    then none
    else let mem' : ℕ = if mem % page_size == 0 then mem - 1 else mem in
      let s : ℕ = mem' - mem' % page_size in
      if not (h.memory s == slab_magic)
      then none
      else if ltb max_slab (h.memory (size_at s))
      then free_big_slab rounds s h
      else some (slab_push s mem' h)
