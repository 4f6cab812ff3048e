-- ===== src/Mem/Slab/Make.antt =====
-- __allocate_slab of kernel/mem/alloc.c.
use wyrm_os.Base.{
  ℕ, zero, suc, ◌+◌, ◌-◌, ◌*◌, ◌/◌, ◌^◌, ◌≤◌, ◌<◌, ◌≡◌, ◌≢◌, ◌⊎◌, ◌∙◌, ap, sym, refl, inl, true,
  some, List, [], ◌∷◌, ◌==◌, arith, given,
}
use native.Mathlib.Nat.{pow-suc, pow-le-pow_right, le-div_iff_mul-le, div-mul-le_self}
use wyrm_os.Base.Word.{page_size}
use wyrm_os.Mem.Heap.{
  Heap, write, max_slab, min_slab, slab_magic, size_at, free_at, next_at, slab_header, slab_index,
  link_entries, make_slab,
}
use wyrm_os.Mem.Slab.FreeList.{Linked, NotIn, Items, FreeList, other_word}

-- `n + 1` places from `p` on, `step` apart
abbrev pub entries_from : (n p step : ℕ) → List ℕ
entries_from zero p step = p ∷ []
entries_from (suc n) p step = p ∷ entries_from n (p + step) step

NotIn-above : (n x p step : ℕ) → x < p → NotIn x (entries_from n p step)
NotIn-above zero x p step lt = (λ e. omega arith, tt)
NotIn-above (suc n) x p step lt = (λ e. omega arith, NotIn-above n x (p + step) step (omega arith))

Items-entries_from :
    (n s p step : ℕ)
    → 8 ≤ step
    → s + slab_header ≤ p
    → p + n * step + 8 ≤ s + page_size
    → Items s (entries_from n p step)
Items-entries_from zero s p step wide low high = (low, omega arith, tt, tt)
Items-entries_from (suc n) s p step wide low high = (
  low,
  omega arith,
  NotIn-above n p (p + step) step (omega arith),
  Items-entries_from n s (p + step) step wide (omega arith) (omega arith),
)

-- Each word leads to the next place, for `n` places.
abbrev Links : (ℕ → ℕ) → (n p step : ℕ) → Type 0
Links m zero p step = Unit
Links m (suc n) p step = (m p ≡ p + step) × Links m n (p + step) step

Links-Linked :
    (m : ℕ → ℕ) (n p step : ℕ)
    → Links m n p step
    → m (p + n * step) ≡ 0
    → Linked m p (entries_from n p step)
Links-Linked m zero p step l last = let z : p + 0 * step ≡ p = omega arith in (refl, rw z at last)
Links-Linked m (suc n) p step (e, l) last =
    let z : p + suc n * step ≡ p + step + n * step = omega arith in
    (refl, rw e (Links-Linked m n (p + step) step l (rw z at last)))

Links-same :
    (m m' : ℕ → ℕ) (n p step : ℕ)
    → 0 < step
    → ((a : ℕ) → p ≤ a → a < p + n * step → m' a ≡ m a)
    → Links m n p step
    → Links m' n p step
Links-same m m' zero p step pos same l = tt
Links-same m m' (suc n) p step pos same (e, l) = (
  same p (omega arith) (omega arith) ∙ e,
  Links-same m m' n (p + step) step pos (λ a low high. same a (omega arith) (omega arith)) l,
)

Links-moved : (m : ℕ → ℕ) (n step : ℕ) {p p' : ℕ} → p ≡ p' → Links m n p step → Links m n p' step
Links-moved m n step e l = rw e at l

link_entries_lem :
    (n e index stack : ℕ) (h : Heap)
    → 0 < 2 ^ index
    → ((a : ℕ)
        → (a < stack + 8 * (e * 2 ^ index)) ⊎ (stack + 8 * ((e + n) * 2 ^ index) ≤ a)
        → (link_entries n e index stack h).memory a ≡ h.memory a)
      × Links
          ((link_entries n e index stack h).memory)
          n
          (stack + 8 * (e * 2 ^ index))
          (8 * 2 ^ index)
unfolding link_entries
link_entries_lem zero e index stack h pos = (λ a out. refl, tt)
link_entries_lem (suc n) e index stack h pos =
    given
      (link_entries_lem n (e + 1) index stack
        (write (stack + 8 * (e * 2 ^ index)) (stack + 8 * ((e + 1) * 2 ^ index)) h) pos)
      λ (same, links).
        let next_place : stack + 8 * ((e + 1) * 2 ^ index)
            ≡ stack + 8 * (e * 2 ^ index) + 8 * 2 ^ index =
          omega arith in
        let self : (stack + 8 * (e * 2 ^ index) == stack + 8 * (e * 2 ^ index)) ≡ true =
          ground arith in
        (
          λ a out.
              same a (omega arith)
              ∙ other_word h.memory (stack + 8 * (e * 2 ^ index))
                  (stack + 8 * ((e + 1) * 2 ^ index)) a (λ q. omega arith),
          (
            same (stack + 8 * (e * 2 ^ index)) (inl (omega arith)) ∙ rw self next_place,
            Links-moved _ n (8 * 2 ^ index) next_place links,
          ),
        )

-- The page of a slab, and the entries behind its header
entries_fit : (step n : ℕ) → 8 ≤ step → step ≤ 1024 → n ≡ 4064 / step - 1 → n * step + 8 ≤ 4064
entries_fit step n low high e =
    let q : ℕ = 4064 / step in
    let some_fit : 0 < step = omega arith in
    let one : 1 ≤ 4064 / step = (le-div_iff_mul-le some_fit).1 (omega arith) in
    let more : n + 1 ≡ 4064 / step = omega arith in
    omega (arith, div-mul-le_self 4064 step, ap (λ (t : ℕ). t * step) more)

-- The page of make_slab, with `n` for the entries but one and `step` for their size
abbrev pub Made : (size s n step : ℕ) → Heap → Heap → Type 0
Made size s n step h h' =
    FreeList h'.memory s (entries_from n (s + slab_header) step)
    × (h'.memory (size_at s) ≡ size)
    × (h'.memory s ≡ slab_magic)
    × (h'.memory (next_at s) ≡ 0)
    × ((a : ℕ) → (a < s) ⊎ (s + page_size ≤ a) → h'.memory a ≡ h.memory a)

abbrev headed : (size s : ℕ) → Heap → Heap
headed size s h =
    write (free_at s) (s + slab_header) (write (size_at s) size (write s slab_magic h))

headed_lem :
    (size s : ℕ) (h : Heap)
    → ((headed size s h).memory (free_at s) ≡ s + slab_header)
      × ((headed size s h).memory (size_at s) ≡ size)
      × ((headed size s h).memory s ≡ slab_magic)
      × ((a : ℕ) → (a < s) ⊎ (s + page_size ≤ a) → (headed size s h).memory a ≡ h.memory a)
headed_lem size s h = (ground arith, ground arith, ground arith, λ a out. ground arith)

abbrev ended_at : (s last : ℕ) → Heap → Heap
ended_at s last h = write (next_at s) 0 (write last 0 h)

ended_at_lem :
    (s last : ℕ) (h : Heap)
    → s + slab_header ≤ last
    → ((ended_at s last h).memory (next_at s) ≡ 0)
      × ((ended_at s last h).memory last ≡ 0)
      × ((a : ℕ) → a ≢ next_at s → a ≢ last → (ended_at s last h).memory a ≡ h.memory a)
ended_at_lem s last h low = (ground arith, ground arith, λ a ne ne'. ground arith)

-- What make_slab leaves
abbrev made : (size s n index : ℕ) → Heap → Heap
made size s n index h =
    ended_at s (s + slab_header + 8 * (n * 2 ^ index))
      (link_entries n 0 index (s + slab_header) (headed size s h))

Made_lem :
    (size s n step index : ℕ) (h : Heap)
    → 8 * 2 ^ index ≡ step
    → 8 ≤ step
    → n * step + 8 ≤ 4064
    → Made size s n step h (made size s n index h)
Made_lem size s n step index h eq wide fits =
    let last : s + slab_header + 8 * (n * 2 ^ index) ≡ s + slab_header + n * step =
      omega (arith, ap (λ (t : ℕ). n * t) eq) in
    let first : s + slab_header + 8 * (0 * 2 ^ index) ≡ s + slab_header = omega arith in
    given (headed_lem size s h) λ (hfree, hsize, hmagic, hout).
      given (link_entries_lem n 0 index (s + slab_header) (headed size s h) (omega arith))
        λ (same, links).
          given
            (ended_at_lem s (s + slab_header + 8 * (n * 2 ^ index))
              (link_entries n 0 index (s + slab_header) (headed size s h)) (omega arith))
            λ (enext, elast, eother). (
              (
                rw
                    (eother (free_at s) (λ q. omega arith) (λ q. omega arith)
                      ∙ same (free_at s) (inl (omega arith))
                      ∙ hfree)
                    (Links-Linked _ n (s + slab_header) step
                      (Links-same
                        ((link_entries n 0 index (s + slab_header) (headed size s h)).memory) _ n
                        (s + slab_header) step (omega arith)
                        (λ a low high. eother a (λ q. omega arith) (λ q. omega arith))
                        (rw eq at (Links-moved _ n (8 * 2 ^ index) first links)))
                      (sym (ap ((made size s n index h).memory) last) ∙ elast)),
                Items-entries_from n s (s + slab_header) step wide (omega arith) (omega arith),
              ),
              eother (size_at s) (λ q. omega arith) (λ q. omega arith)
                  ∙ same (size_at s) (inl (omega arith))
                  ∙ hsize,
              eother s (λ q. omega arith) (λ q. omega arith) ∙ same s (inl (omega arith)) ∙ hmagic,
              enext,
              λ a out.
                  eother a (λ q. omega arith) (λ q. omega arith)
                  ∙ same a (omega arith)
                  ∙ hout a out,
            )

-- __allocate_slab makes every entry behind the header of its page free, in order, and changes no
-- word outside of the page.
pub make_slab-FreeList :
    (size s : ℕ) (h : Heap)
    → min_slab ≤ size
    → size ≤ max_slab
    → (h' : Heap) × (make_slab size s h ≡ some h')
      × Made size s ((page_size - slab_header) / 2 ^ size - 1) (2 ^ size) h h'
unfolding make_slab slab_index
make_slab-FreeList size s h low high =
    let index : slab_index size ≡ some (size - min_slab) = ground arith in
    let up : suc (suc (suc (size - min_slab))) ≡ size = omega arith in
    let wide : 2 ^ 3 ≤ 2 ^ size = pow-le-pow_right (omega arith) low in
    let narrow : 2 ^ size ≤ 2 ^ max_slab = pow-le-pow_right (omega arith) high in
    let eq : 8 * 2 ^ (size - min_slab) ≡ 2 ^ size = omega (
      arith,
      pow-suc 2 (size - min_slab),
      pow-suc 2 (suc (size - min_slab)),
      pow-suc 2 (suc (suc (size - min_slab))),
      ap (λ (t : ℕ). 2 ^ t) up,
    ) in
    (
      made size s ((page_size - slab_header) / 2 ^ size - 1) (size - min_slab) h,
      rw (make_slab, index) refl,
      Made_lem size s ((page_size - slab_header) / 2 ^ size - 1) (2 ^ size) (size - min_slab) h eq
          (omega arith) (entries_fit (2 ^ size) _ (omega arith) (omega arith) refl),
    )
