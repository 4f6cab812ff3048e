-- ===== src/Types/DList/Chain/Ends.antt =====
-- The ends of a list, nodes that are apart, and lengths that change by one.
use wyrm_os.Base.{
  ℕ, ◌<◌, ◌≡◌, refl, ◌≢◌, ◌⊎◌, true, false, Option, some, [], ◌∷◌, ◌++◌, arith, length, dec64,
  length-append, ◌^◌, Bool-cases, ◌∙◌, sym, inl, inr,
}
use wyrm_os.Types.Heap.{Ptr, null, Head, Heap}
use wyrm_os.Types.DList.Chain.Defs.{Cells, has, first, last, IsList, has-append, head_of, has-ne}
use wyrm_os.Types.DList.Chain.Links.{Chain-frame}

pub last-cases :
    (xs : Cells) (start : Ptr) → (last xs start ≡ start) ⊎ (has (last xs start) xs ≡ true)
last-cases [] start = inl refl
last-cases ((a, v) ∷ xs) start = inr (go (last-cases xs a))
  where
    go : (last xs a ≡ a) ⊎ (has (last xs a) xs ≡ true) → has (last xs a) ((a, v) ∷ xs) ≡ true
    go (inl e) = ground arith
    go (inr i) = ground arith

pub first-cases :
    (xs : Cells) (stop : Ptr) → (first xs stop ≡ stop) ⊎ (has (first xs stop) xs ≡ true)
first-cases [] stop = inl refl
first-cases ((a, v) ∷ xs) stop = inr (ground arith)

pub last-in : (xs : Cells) → last xs null ≢ null → has (last xs null) xs ≡ true
last-in xs ne = elim (last-cases xs null) [ inl e ↦ absurd (ne e) | inr i ↦ i ]

pub first-in : (xs : Cells) → first xs null ≢ null → has (first xs null) xs ≡ true
first-in xs ne = elim (first-cases xs null) [ inl e ↦ absurd (ne e) | inr i ↦ i ]

-- an address that is not among the nodes is at neither end
pub last-ne : (xs : Cells) (n : Ptr) → has n xs ≡ false → n ≢ null → last xs null ≢ n
last-ne xs n out ne = elim (last-cases xs null) [
  | inl e ↦ rw e (λ e'. ne (sym e'))
  | inr i ↦ has-ne _ n xs out i
]

pub first-ne : (xs : Cells) (n : Ptr) → has n xs ≡ false → n ≢ null → first xs null ≢ n
first-ne xs n out ne = elim (first-cases xs null) [
  | inl e ↦ rw e (λ e'. ne (sym e'))
  | inr i ↦ has-ne _ n xs out i
]

abbrev pub Apart : Cells → Cells → Type 0
Apart xs ys = (a : Ptr) → has a xs ≡ true → has a ys ≡ false

pub Apart-ne : (xs ys : Cells) (a b : Ptr) → Apart xs ys → has a xs ≡ true → has b ys ≡ true → a ≢ b
Apart-ne xs ys a b apart i j e = has-ne b a ys (apart a i) j (sym e)

module _ (xs ys : Cells) (n v : Ptr) (apart : Apart xs ((n, v) ∷ ys)) where
  pub not-has-left : has n xs ≡ false
  not-has-left = elim (Bool-cases (has n xs)) [ inl i ↦ ground (arith, apart n i) | inr o ↦ o ]

  pub Apart-tail : Apart xs ys
  Apart-tail a i = ground (arith, apart a i)

pub head_of-eq :
    {p p' q q' : Ptr} {s s' : ℕ}
    → p ≡ p'
    → q ≡ q'
    → s ≡ s'
    → ◌≡◌ {A = Option Head} (some (head_of p q s)) (some (head_of p' q' s'))
head_of-eq e f g = cc

pub not-has-parts :
    (a : Ptr) (xs ys : Cells) (n v : Ptr)
    → has a (xs ++ (n, v) ∷ ys) ≡ false
    → (has a xs ≡ false) × (a ≢ n) × (has a ys ≡ false)
not-has-parts a xs ys n v o = (
  ground (arith, has-append a xs ((n, v) ∷ ys)),
  ground (arith, has-append a xs ((n, v) ∷ ys)),
  ground (arith, has-append a xs ((n, v) ∷ ys)),
)

pub dec_length :
    (xs ys : Cells) (c : Ptr × Ptr)
    → length (xs ++ c ∷ ys) < 2 ^ 64
    → dec64 (length (xs ++ c ∷ ys)) ≡ length (xs ++ ys)
dec_length xs ys c fits = omega (arith, length-append xs (c ∷ ys), length-append xs ys)

module _ (h : Heap) (l : Ptr) (xs : Cells) where
  -- a list survives any change that spares its nodes and its list object
  pub IsList-frame :
      {g : Heap}
      → IsList h l xs
      → ((a : Ptr) → has a xs ≡ true → g.node a ≡ h.node a)
      → g.list l ≡ h.list l
      → IsList g l xs
  IsList-frame is same list = record {
    ne_null = is.ne_null;
    holds = list ∙ is.holds;
    chain = Chain-frame h.node l null xs null is.chain same;
  }
