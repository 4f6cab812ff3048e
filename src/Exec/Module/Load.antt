-- ===== src/Exec/Module/Load.antt =====
-- __load_recursive and k_load_modules where all comparisons of scopes end.
use mathlib.Core.Path.{subst, sym}
use wyrm_os.Base.{
  ℕ, zero, suc, ◌≤◌, ◌<◌, ◌≡◌, inl, inr, refl, Bool, true, false, Option, none, some, List, [], ◌∷◌,
  length, arith, Bool-cases, ℤ, pos, negsuc, given,
}
use wyrm_os.Base.Fail.{◌>>=◌}
use wyrm_os.Exec.Initrd.{is_zero}
use wyrm_os.Exec.Module.{
  Strings, ModuleInfo, find_module, k_module_check_scope, Loader, load_deps, finish_load,
  load_recursive, load_all, load_modules,
}
use wyrm_os.Exec.Module.Order.{
  Offers, Offered, EachOffered, AllOffered, Ordered, k_module_check_scope-Offered,
}
use wyrm_os.Exec.Module.Search.{
  AllQ, Ready, ReadyDeps, Found, find_module-Found, check_scope_total, nothing, one,
}
use wyrm_os.Exec.Module.Further.{
  Fine, Further, Further-refl, Further-trans, Loads, EachOffered-Further, taken,
  finish_load-Further,
}

module _ (k : ℕ) (Q : ModuleInfo → Type 0) where
  -- What the loop over the dependencies comes to
  abbrev DepsDone : (ModuleInfo → Loader → Option (ℤ × Loader)) → Strings → Loader → Type 0
  DepsDone load deps s =
      (r : ℤ) × (s' : Loader) × (load_deps load k deps s ≡ some (r, s'))
      × Further k Q s s'
      × (is_zero r ≡ true → EachOffered s'.loaded deps)

  load_deps_total :
      (load : ModuleInfo → Loader → Option (ℤ × Loader)) (n : ℕ)
      → Loads k Q load n
      → (deps : Strings) (s : Loader) → Ready k Q deps
      → Fine k Q s
      → length s.cache ≤ n
      → DepsDone load deps s
  unfolding load_deps
  load_deps_total load n l [] s ready fine few = absurd ready
  load_deps_total load n l (none ∷ deps) s ready fine few =
      (pos 0, s, refl, Further-refl k Q s fine, λ z. tt)
  load_deps_total load n l (some scope ∷ deps) s (ends, ready) fine few =
      given (check_scope_total k Q s.loaded scope ends fine.known)
        λ (b, e). resolved (λ s1 f1 few1. load_deps_total load n l deps s1 ready f1 few1) b e
    where
      after :
          (s1 : Loader)
          → Further k Q s s1
          → Offered s1.loaded scope
          → (r' : ℤ) (s' : Loader) → Further k Q s1 s'
          → (is_zero r' ≡ true → EachOffered s'.loaded deps)
          → Further k Q s s' × (is_zero r' ≡ true → EachOffered s'.loaded (some scope ∷ deps))
      after s1 f o r' s' f' h =
          (Further-trans k Q f f', λ z'. (EachOffered-Further k Q scope f' o, h z'))

      called :
          ((s1 : Loader) → Fine k Q s1 → length s1.cache ≤ n → DepsDone load deps s1)
          → k_module_check_scope k s.loaded scope ≡ some false
          → (m : ModuleInfo) (rest : List ModuleInfo)
          → find_module k s.cache scope ≡ some (some (m, rest))
          → suc (length rest) ≡ length s.cache
          → Offers m.scopes scope
          → (r : ℤ) (s1 : Loader) → load m (record s { cache = rest }) ≡ some (r, s1)
          → Further k Q (record s { cache = rest }) s1
          → (is_zero r ≡ true
              → (scope' : List ℕ) → Offers m.scopes scope'
              → Offered s1.loaded scope')
          → DepsDone load (some scope ∷ deps) s
      called rec e m rest e' len o r s1 e1 f h = elim (Bool-cases (is_zero r)) [
        | inl z ↦ given (rec s1 f.fine (omega (arith, f.fewer))) λ (r', s', e2, f', h').
            given (after s1 (taken k Q s s1 rest len f) (h z scope o) r' s' f' h')
              λ (g, o'). (r', s', rw (e, e', e1, z, e2) refl, g, o')
        | inr z ↦ (r, s1, rw (e, e', e1, z) refl, taken k Q s s1 rest len f, λ z'. cc (z, z'))
      ]

      resolved :
          ((s1 : Loader) → Fine k Q s1 → length s1.cache ≤ n → DepsDone load deps s1)
          → (b : Bool) → k_module_check_scope k s.loaded scope ≡ some b
          → DepsDone load (some scope ∷ deps) s
      resolved rec true e = given (rec s fine few) λ (r', s', e', f', h').
          given
            (after s (Further-refl k Q s fine) (k_module_check_scope-Offered k s.loaded scope e) r'
              s' f' h')
            λ (g, o'). (r', s', rw (e, e') refl, g, o')
      resolved rec false e =
          given (find_module-Found k Q s.cache scope ends fine.waiting)
            λ (r, e', f). searched r e' f
        where
          searched :
              (r : Option (ModuleInfo × List ModuleInfo))
              → find_module k s.cache scope ≡ some r
              → Found k Q scope s.cache r
              → DepsDone load (some scope ∷ deps) s
          searched none e' nothing =
              (negsuc 0, s, rw (e, e') refl, Further-refl k Q s fine, λ z. absurd (cc z))
          searched (some (m, rest)) e' (one q a len o) =
              given
                (l m (record s { cache = rest }) q
                  (record { waiting = a; known = fine.known; ordered = fine.ordered })
                  (omega arith))
                λ (r, s1, e1, f, h). called rec e m rest e' len o r s1 e1 f h

  load_recursive-Loads :
      ((m : ModuleInfo) → Q m → ReadyDeps k Q m.deps)
      → (depth : ℕ) → Loads k Q (load_recursive depth k) depth
  unfolding load_recursive
  load_recursive-Loads ready zero m s q fine few = absurd (omega arith)
  load_recursive-Loads ready (suc depth) m s q fine few =
      go (load_recursive-Loads ready depth) m.deps refl (ready m q)
    where
      go :
          Loads k Q (load_recursive depth k) depth
          → (o : Option Strings) → m.deps ≡ o
          → ReadyDeps k Q o
          → (r : ℤ) × (s' : Loader) × ((elim o [
            | none ↦ some (finish_load m (pos 0) s)
            | some deps ↦
                load_deps (load_recursive depth k) k deps s >>= λ (r, s'). some (finish_load m r s')
          ])
              ≡ some (r, s'))
            × Further k Q s s'
            × (is_zero r ≡ true
                → (scope : List ℕ) → Offers m.scopes scope
                → Offered s'.loaded scope)
      go rec none e d =
          given
            (finish_load-Further k Q m (pos 0) s s q (Further-refl k Q s fine)
              (λ z. subst (λ (o : Option Strings). AllOffered s.loaded o) (sym e) tt))
            λ (f, o). ((finish_load m (pos 0) s).0, (finish_load m (pos 0) s).1, refl, f, o)
      go rec (some deps) e d =
          given (load_deps_total (load_recursive depth k) depth rec deps s d fine (omega arith))
            λ (r, s', e', f, h).
              given
                (finish_load-Further k Q m r s s' q f
                  (λ z. subst (λ (o : Option Strings). AllOffered s'.loaded o) (sym e) (h z)))
                λ (g, o). ((finish_load m r s').0, (finish_load m r s').1, rw e' refl, g, o)

  load_all_total :
      ((m : ModuleInfo) → Q m → ReadyDeps k Q m.deps)
      → (rounds depth : ℕ) (s : Loader) → Fine k Q s
      → length s.cache < rounds
      → length s.cache ≤ depth
      → (s' : Loader) × (load_all rounds depth k s ≡ some s') × Fine k Q s'
  unfolding load_all
  load_all_total ready zero depth s fine few deep = absurd (omega arith)
  load_all_total ready (suc rounds) depth s fine few deep =
      go (load_all_total ready rounds depth) s.cache fine.waiting few deep
    where
      go :
          ((s1 : Loader)
            → Fine k Q s1
            → length s1.cache < rounds
            → length s1.cache ≤ depth
            → (s' : Loader) × (load_all rounds depth k s1 ≡ some s') × Fine k Q s')
          → (c : List ModuleInfo) → AllQ k Q c
          → length c < suc rounds
          → length c ≤ depth
          → (s' : Loader) × ((elim c [
            | [] ↦ some s
            | m ∷ cache ↦ load_recursive depth k m (record s { cache = cache }) >>= λ (r, s').
                load_all rounds depth k s'
          ])
              ≡ some s')
            × Fine k Q s'
      go rec [] a few' deep' = (s, refl, fine)
      go rec (m ∷ c) (q, a) few' deep' =
          given
            (load_recursive-Loads ready depth m (record s { cache = c }) q
              (record { waiting = a; known = fine.known; ordered = fine.ordered }) (omega arith))
            λ (r, s1, e, f, o).
              given (rec s1 f.fine (omega (arith, f.fewer)) (omega (arith, f.fewer)))
                λ (s', e', g). (s', rw (e, e') refl, g)

  -- Where every array of dependencies ends with NULL and every comparison of one of them with a module
  -- ends, k_load_modules ends, within one round more than there are modules and calls as deep as there
  -- are modules; whatever the modules' own `load` return, each module that is then loaded stands
  -- behind modules that offer all its dependencies.
  pub load_modules-Ordered :
      ((m : ModuleInfo) → Q m → ReadyDeps k Q m.deps)
      → (rounds depth : ℕ) (infos : List ModuleInfo) → AllQ k Q infos
      → length infos < rounds
      → length infos ≤ depth
      → (loaded : List ModuleInfo) × (load_modules rounds depth k infos ≡ some loaded)
        × Ordered [] loaded
        × AllQ k Q loaded
  unfolding load_modules
  load_modules-Ordered ready rounds depth infos a few deep =
      given
        (load_all_total ready rounds depth (record { cache = infos; loaded = [] })
          (record { waiting = a; known = tt; ordered = tt }) few deep)
        λ (s, e, f). (s.loaded, rw e refl, f.ordered, f.known)
