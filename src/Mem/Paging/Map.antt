-- ===== src/Mem/Paging/Map.antt =====
-- k_mem_paging_map_ex: the translations afterwards.
use wyrm_os.Base.{
  ◌&&◌, ◌-◌, ◌/◌, ◌==◌, ℕ, ◌+◌, ◌%◌, ◌^◌, ◌<◌, ◌≡◌, ◌≢◌, ◌∙◌, sym, ap, refl, true, some,
  if◌then◌else◌, arith, Bool-cases, inl, inr,
}
use wyrm_os.Base.Word.{u64, page_size, frame_of}
use wyrm_os.Mem.Paging.{
  Paging, present, page_of, page_addr, layers, walk, get_physical, in_tables, entry, map_ex,
  map_region_ex, map_pages_ex,
}
use wyrm_os.Mem.Paging.Walk.{
  leaf, Small, Filled, walk-Grows, walk-Filled, walk_of, get_physical-walk,
}
use wyrm_os.Mem.Paging.Fill.{Mapping, map_layers-Mapping, Once}

page_of-entry : (flags f : ℕ) → page_of (entry flags f) ≡ f % 2 ^ 28
unfolding page_of entry
page_of-entry flags f = ground arith

page_addr_low : (p : ℕ) → p % page_size ≡ 0 → p < 2 ^ 31 → page_addr (frame_of p % 2 ^ 28) ≡ p
unfolding page_addr frame_of
page_addr_low p aligned low = ground arith

map_ex-Mapping :
    (v p flags : ℕ) (s s' : Paging)
    → map_ex v p flags s ≡ some s'
    → Mapping s.high_map (layers v) s.pml p flags s s'
unfolding map_ex layers
map_ex-Mapping v p flags s s' e =
    let inside : in_tables v ≡ true = ground arith in
    map_layers-Mapping 0 _ s.pml p flags s s' (omega arith) (omega arith) (rw inside at e)

-- k_mem_paging_map_ex leaves every address that had a translation with the same one.
pub map_ex_kept :
    (v p flags : ℕ) (s s' : Paging) (u a : ℕ)
    → map_ex v p flags s ≡ some s'
    → get_physical u s ≡ some a
    → a ≢ 0
    → get_physical u s' ≡ some a
unfolding walk_of
map_ex_kept v p flags s s' u a e g ne =
    let m : Mapping s.high_map (layers v) s.pml p flags s s' = map_ex-Mapping v p flags s s' e in
    let w : walk s.high_map s.memory 0 (layers u) s.pml u ≡ a = cc (get_physical-walk u s, g) in
    get_physical-walk u s'
    ∙ ap (λ (n : ℕ). some n)
        (rw (m.tables.0, m.tables.1)
          (walk-Grows s.high_map s.memory s'.memory 0 (layers u) s.pml u m.grows
              (λ z. ne (sym w ∙ z))
            ∙ w))

walk_four :
    (hm : ℕ) (m : ℕ → ℕ) (v pg : ℕ)
    → Filled hm m (layers v) pg
    → Small hm m (layers v) pg
    → walk hm m 0 (layers v) pg v
      ≡ u64 (page_addr (page_of (m (leaf hm m (layers v) pg))) + v % page_size)
unfolding layers
walk_four hm m v pg f l = walk-Filled hm m 0 _ pg v (omega arith) (omega arith) f l

-- After k_mem_paging_map_ex of a frame below 2 GiB, where no entry on the way is one of a large page
-- and the last one is not used before it, the address is translated to the frame, or to the frame of
-- the last entry that was there before, also in a table that is new.
pub map_ex-get_physical :
    (v p flags a : ℕ) (s s' : Paging)
    → map_ex v p flags s ≡ some s'
    → p ≢ 0
    → p % page_size ≡ 0
    → p < 2 ^ 31
    → Small s.high_map s'.memory (layers v) s.pml
    → leaf s.high_map s'.memory (layers v) s.pml ≡ a
    → Once a s.high_map s'.memory (layers v) s.pml
    → get_physical v s'
      ≡ some (
          if present (s.memory a)
          then u64 (page_addr (page_of (s.memory a)) + v % page_size)
          else p + v % page_size)
unfolding walk_of
map_ex-get_physical v p flags a s s' e nz aligned low small last once =
    let m : Mapping s.high_map (layers v) s.pml p flags s s' = map_ex-Mapping v p flags s s' e in
    let w : walk s'.high_map s'.memory 0 (layers v) s'.pml v
        ≡ u64 (page_addr (page_of (s'.memory a)) + v % page_size) =
      rw (m.tables.0, m.tables.1)
        (walk_four s.high_map s'.memory v s.pml m.filled small
          ∙ ap (λ (z : ℕ). u64 (page_addr (page_of (s'.memory z)) + v % page_size)) last) in
    get_physical-walk v s'
    ∙ ap (λ (n : ℕ). some n)
        (w ∙ (elim (Bool-cases (present (s.memory a))) [
          | inl t ↦ rw (t, m.grows a t) refl
          | inr t ↦
              rw (t, m.new_leaf a last t once nz, page_of-entry, page_addr_low p aligned low)
                (omega arith)
        ]))

-- k_mem_paging_map_region_ex of a region that is not empty takes the start from the end the wrong way
-- round, and maps all the pages that the region does not have.
pub map_region_ex-map_pages_ex :
    (start end p flags : ℕ) (s : Paging)
    → start % page_size ≡ 0
    → end % page_size ≡ 0
    → p % page_size ≡ 0
    → start < end
    → end < 2 ^ 64
    → map_region_ex start end p flags s
      ≡ map_pages_ex start (2 ^ 52 - (end - start) / page_size) p flags s
unfolding map_region_ex
map_region_ex-map_pages_ex start end p flags s a b c some_pages fits =
    let aligned : ((start % page_size == 0) && (end % page_size == 0) && (p % page_size == 0))
        ≡ true =
      ground arith in
    let count : u64 (start + (2 ^ 64 - end)) / page_size ≡ 2 ^ 52 - (end - start) / page_size =
      omega arith in
    rw (aligned, count) refl
