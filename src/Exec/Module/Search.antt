-- ===== src/Exec/Module/Search.antt =====
-- __find_module and k_module_check_scope where all comparisons of scopes end.
use wyrm_os.Base.{
  ℕ, suc, ◌≡◌, refl, Bool, true, false, Option, none, some, List, [], ◌∷◌, ◌++◌, length, arith,
  given,
}
use wyrm_os.Exec.Module.{Strings, ModuleInfo, scope_comparator, find_module, k_module_check_scope}
use wyrm_os.Exec.Module.Order.{Offers, scope_comparator-Offers}

-- `Q` holds of all modules that there are.
module _ (k : ℕ) (Q : ModuleInfo → Type 0) where
  abbrev pub AllQ : List ModuleInfo → Type 0
  AllQ [] = Unit {0}
  AllQ (m ∷ ms) = Q m × AllQ ms

  -- The array ends with NULL, and the comparison of each of its strings with a module ends.
  abbrev pub Ready : Strings → Type 0
  Ready [] = ⊥
  Ready (none ∷ r) = Unit {0}
  Ready (some scope ∷ r) =
      ((m : ModuleInfo) → Q m → (b : Bool) × (scope_comparator k m scope ≡ some b)) × Ready r

  abbrev pub ReadyDeps : Option Strings → Type 0
  ReadyDeps none = Unit {0}
  ReadyDeps (some r) = Ready r

  pub AllQ-append : (ms : List ModuleInfo) (m : ModuleInfo) → AllQ ms → Q m → AllQ (ms ++ (m ∷ []))
  AllQ-append [] m a q = (q, tt)
  AllQ-append (x ∷ ms) m (p, a) q = (p, AllQ-append ms m a q)

  -- What a search finds
  pub data Found (scope : List ℕ) (ms : List ModuleInfo)
      : Option (ModuleInfo × List ModuleInfo) → Type 0 where
    nothing : Found scope ms none
    one :
        {m : ModuleInfo} {rest : List ModuleInfo}
        → Q m
        → AllQ rest
        → suc (length rest) ≡ length ms
        → Offers m.scopes scope
        → Found scope ms (some (m, rest))

  pub find_module-Found :
      (ms : List ModuleInfo) (scope : List ℕ)
      → ((m : ModuleInfo) → Q m → (b : Bool) × (scope_comparator k m scope ≡ some b))
      → AllQ ms
      → (r : Option (ModuleInfo × List ModuleInfo)) × (find_module k ms scope ≡ some r)
        × Found scope ms r
  unfolding find_module
  find_module-Found [] scope ends a = (none, refl, nothing)
  find_module-Found (m ∷ ms) scope ends (q, a) =
      given (find_module-Found ms scope ends a) λ (r, e, f). given (ends m q) λ (b, n). go b n r e f
    where
      go :
          (b : Bool)
          → scope_comparator k m scope ≡ some b
          → (r : Option (ModuleInfo × List ModuleInfo)) → find_module k ms scope ≡ some r
          → Found scope ms r
          → (r' : Option (ModuleInfo × List ModuleInfo)) × (find_module k (m ∷ ms) scope ≡ some r')
            × Found scope (m ∷ ms) r'
      go true n r e f =
          (some (m, ms), rw n refl, one q a refl (scope_comparator-Offers k m scope n))
      go false n none e nothing = (none, rw (n, e) refl, nothing)
      go false n (some (m', rest)) e (one q' a' l o) =
          (some (m', m ∷ rest), rw (n, e) refl, one q' (q, a') (omega arith) o)

  pub check_scope_total :
      (ms : List ModuleInfo) (scope : List ℕ)
      → ((m : ModuleInfo) → Q m → (b : Bool) × (scope_comparator k m scope ≡ some b))
      → AllQ ms
      → (b : Bool) × (k_module_check_scope k ms scope ≡ some b)
  unfolding k_module_check_scope
  check_scope_total ms scope ends a =
      given (find_module-Found ms scope ends a)
        λ (r, e, f). (elim r [ none ↦ false | some m ↦ true ], rw e refl)
