-- ===== src/Exec/Module/Further.antt =====
-- What a call of __load_recursive has done to the lists of modules.
use mathlib.Core.Path.{subst, sym}
use wyrm_os.Base.{
  ℕ, suc, ◌≤◌, ◌<◌, ◌≡◌, ◌∙◌, inl, inr, ap, true, Option, some, List, [], ◌∷◌, ◌++◌, length,
  append_assoc, append_nil, arith, Bool-cases, ℤ,
}
use wyrm_os.Exec.Initrd.{is_zero}
use wyrm_os.Exec.Module.{ModuleInfo, Loader, finish_load}
use wyrm_os.Exec.Module.Order.{Offers, Offered, AllOffered, Ordered, Offered-append, Ordered-append}
use wyrm_os.Exec.Module.Search.{AllQ, AllQ-append}

module _ (k : ℕ) (Q : ModuleInfo → Type 0) where
  -- A state between calls
  pub record Fine (s : Loader) : Type 0 where
    pub waiting : AllQ k Q s.cache
    pub known : AllQ k Q s.loaded
    pub ordered : Ordered [] s.loaded

  -- What a call has done: no module more to load, and others behind those loaded
  pub record Further (s s' : Loader) : Type 0 where
    pub fine : Fine s'
    pub fewer : length s'.cache ≤ length s.cache
    pub more : List ModuleInfo
    pub kept : s'.loaded ≡ s.loaded ++ more

  pub Further-refl : (s : Loader) → Fine s → Further s s
  Further-refl s f = record {
    fine = f;
    fewer = omega arith;
    more = [];
    kept = sym (append_nil s.loaded);
  }

  pub Further-trans : {s s' s'' : Loader} → Further s s' → Further s' s'' → Further s s''
  Further-trans {s} f g = record {
    fine = g.fine;
    fewer = omega (arith, f.fewer, g.fewer);
    more = f.more ++ g.more;
    kept =
        g.kept
        ∙ ap (λ (z : List ModuleInfo). z ++ g.more) f.kept
        ∙ append_assoc s.loaded f.more g.more;
  }

  -- A call on a module ends where fewer than `n` modules wait.
  abbrev pub Loads : (ModuleInfo → Loader → Option (ℤ × Loader)) → (n : ℕ) → Type 0
  Loads load n =
      (m : ModuleInfo) (s : Loader)
      → Q m
      → Fine s
      → length s.cache < n
      → (r : ℤ) × (s' : Loader) × (load m s ≡ some (r, s'))
        × Further s s'
        × (is_zero r ≡ true → (scope : List ℕ) → Offers m.scopes scope → Offered s'.loaded scope)

  pub EachOffered-Further :
      {s s' : Loader} (scope : List ℕ)
      → Further s s'
      → Offered s.loaded scope
      → Offered s'.loaded scope
  EachOffered-Further {s} scope f o =
      subst (λ (z : List ModuleInfo). Offered z scope) (sym f.kept)
        (Offered-append s.loaded f.more scope o)

  -- What a call finds in the place of the module that it takes off the cache
  pub taken :
      (s s' : Loader) (rest : List ModuleInfo)
      → suc (length rest) ≡ length s.cache
      → Further (record s { cache = rest }) s'
      → Further s s'
  taken s s' rest l f = record {
    fine = f.fine;
    fewer = omega (arith, f.fewer);
    more = f.more;
    kept = f.kept;
  }

  Offered-last :
      (ms : List ModuleInfo) (m : ModuleInfo) (scope : List ℕ)
      → Offers m.scopes scope
      → Offered (ms ++ (m ∷ [])) scope
  Offered-last [] m scope o = inl o
  Offered-last (x ∷ ms) m scope o = inr (Offered-last ms m scope o)

  -- The end of a call, where the module waits no more
  pub finish_load-Further :
      (m : ModuleInfo) (r : ℤ) (s s' : Loader)
      → Q m
      → Further s s'
      → (is_zero r ≡ true → AllOffered s'.loaded m.deps)
      → Further s (finish_load m r s').1
        × (is_zero (finish_load m r s').0 ≡ true
            → (scope : List ℕ) → Offers m.scopes scope
            → Offered (finish_load m r s').1.loaded scope)
  unfolding finish_load
  finish_load-Further m r s s' q f o = elim (Bool-cases (is_zero r)) [
    | inr z ↦ rw z (f, λ z'. cc (z, z'))
    | inl z ↦ elim (Bool-cases (is_zero m.result)) [
      | inr y ↦ rw (z, y) (f, λ z'. cc (y, z'))
      | inl y ↦
          rw (z, y)
            (
              record {
                fine = record {
                  waiting = f.fine.waiting;
                  known = AllQ-append k Q s'.loaded m f.fine.known q;
                  ordered = Ordered-append [] s'.loaded m f.fine.ordered (o z);
                };
                fewer = f.fewer;
                more = f.more ++ (m ∷ []);
                kept =
                    ap (λ (z : List ModuleInfo). z ++ (m ∷ [])) f.kept
                    ∙ append_assoc s.loaded f.more (m ∷ []);
              },
              λ z' scope p. Offered-last s'.loaded m scope p,
            )
    ]
  ]
