-- ===== src/Types/DList/Query.antt =====
-- list_get and list_find_cmp read a list and change nothing; list_clear frees it.
use wyrm_os.Base.{
  ℕ, zero, suc, ◌<◌, ◌≡◌, refl, Bool, true, some, [], ◌∷◌, arith, length, inl, inr, leb,
  if◌then◌else◌, Bool-cases,
}
use wyrm_os.Types.Heap.{Ptr, null, Heap, ◌>>=◌}
use wyrm_os.Types.DList.{list_get, get_loop, list_find_cmp, find_loop}
use wyrm_os.Types.DList.Chain.{Cells, first, Chain, IsList, not_null}

-- the address of the node at index `i`, and NULL where there is none
abbrev pub nth : Cells → ℕ → Ptr
nth [] i = null
nth ((a, v) ∷ xs) zero = a
nth ((a, v) ∷ xs) (suc i) = nth xs i

-- its value
abbrev pub nth_value : Cells → ℕ → Ptr
nth_value [] i = null
nth_value ((a, v) ∷ xs) zero = v
nth_value ((a, v) ∷ xs) (suc i) = nth_value xs i

-- the first node whose value passes the test
abbrev pub find : (Ptr → Bool) → Cells → Ptr
find cmp [] = null
find cmp ((a, v) ∷ xs) = if cmp v then a else find cmp xs

module _ (h : Heap) (l : Ptr) where
  get_loop-nth :
      (start : Ptr) (xs : Cells) (i : ℕ)
      → Chain h.node l start xs null
      → i < length xs
      → get_loop i (first xs null) h ≡ some (nth xs i, h)
  unfolding get_loop
  get_loop-nth start [] i c lt = absurd (omega arith)
  get_loop-nth start ((a, v) ∷ xs) zero c lt = refl
  get_loop-nth start ((a, v) ∷ xs) (suc i) c lt =
      rw (c.2, ◌>>=◌) (get_loop-nth a xs i c.3 (omega arith))

  nth_of_ge : (xs : Cells) (i : ℕ) → leb (length xs) i ≡ true → nth xs i ≡ null
  nth_of_ge [] i e = refl
  nth_of_ge ((a, v) ∷ xs) zero e = ground arith
  nth_of_ge ((a, v) ∷ xs) (suc i) e = nth_of_ge xs i (ground arith)

  -- list_get returns the node at index `i`, and NULL from the list's size on.
  pub list_get-nth : (xs : Cells) (i : ℕ) → IsList h l xs → list_get l i h ≡ some (nth xs i, h)
  unfolding list_get
  list_get-nth xs i is =
      rw (not_null l is.ne_null, is.holds, ◌>>=◌)
        (elim (Bool-cases (leb (length xs) i)) [
          | inl e ↦ rw (e, nth_of_ge xs i e)
          | inr e ↦ rw e (get_loop-nth null xs i is.chain (ground arith))
        ])

  find_loop-find :
      (cmp : Ptr → Bool) (k : ℕ) (start : Ptr) (xs : Cells)
      → Chain h.node l start xs null
      → length xs < k
      → find_loop cmp k (first xs null) h ≡ some (find cmp xs, h)
  unfolding find_loop
  find_loop-find cmp zero start xs c lt = absurd (omega arith)
  find_loop-find cmp (suc k) start [] c lt = refl
  find_loop-find cmp (suc k) start ((a, v) ∷ xs) c lt =
      rw (not_null a c.0, c.2, ◌>>=◌)
        (elim (Bool-cases (cmp v)) [
          | inl e ↦ rw e
          | inr e ↦ rw e (find_loop-find cmp k a xs c.3 (omega arith))
        ])

  -- list_find_cmp returns the first node that compares equal, and NULL where there is none; one
  -- round more than there are nodes is enough.
  pub list_find_cmp-find :
      (cmp : Ptr → Bool) (k : ℕ) (xs : Cells)
      → IsList h l xs
      → length xs < k
      → list_find_cmp cmp k l h ≡ some (find cmp xs, h)
  unfolding list_find_cmp
  list_find_cmp-find cmp k xs is lt =
      rw (not_null l is.ne_null, is.holds, ◌>>=◌) (find_loop-find cmp k null xs is.chain lt)
