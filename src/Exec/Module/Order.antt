-- ===== src/Exec/Module/Order.antt =====
-- The order in which modules are loaded, and the search that does not end.
use mathlib.Core.Path.{subst, sym}
use wyrm_os.Base.{
  ℕ, zero, suc, ◌≡◌, ◌⊎◌, inl, inr, refl, true, false, Option, none, some, List, [], ◌∷◌, ◌++◌,
  append_assoc, append_nil, Bool-cases, Option-cases,
}
use wyrm_os.Fs.Vfs.{same_name}
use wyrm_os.Exec.Module.{
  Strings, ModuleInfo, scope_loop, scope_comparator, find_module, k_module_check_scope,
}

scope_loop_endless :
    (k : ℕ) (first : List ℕ) (others : Strings) (scope : List ℕ)
    → same_name first scope ≡ false
    → scope_loop k (some first ∷ others) scope ≡ none
unfolding scope_loop
scope_loop_endless zero first others scope ne = refl
scope_loop_endless (suc k) first others scope ne =
    rw (ne, scope_loop_endless k first others scope ne) refl

-- __scope_comparator of a module whose first scope is another one than the one looked for does not
-- end, whatever the other scopes are.
pub scope_comparator_endless :
    (k : ℕ) (m : ModuleInfo) (first : List ℕ) (others : Strings) (scope : List ℕ)
    → m.scopes ≡ some (some first ∷ others)
    → same_name first scope ≡ false
    → scope_comparator k m scope ≡ none
unfolding scope_comparator
scope_comparator_endless k m first others scope e ne =
    rw e (scope_loop_endless k first others scope ne)

-- The array has the string, before its NULL.
abbrev pub Has : Strings → List ℕ → Type 0
Has [] scope = ⊥
Has (none ∷ r) scope = ⊥
Has (some s ∷ r) scope = (same_name s scope ≡ true) ⊎ Has r scope

abbrev pub Offers : Option Strings → List ℕ → Type 0
Offers none scope = ⊥
Offers (some r) scope = Has r scope

-- One of the modules offers the scope.
abbrev pub Offered : List ModuleInfo → List ℕ → Type 0
Offered [] scope = ⊥
Offered (m ∷ ms) scope = Offers m.scopes scope ⊎ Offered ms scope

-- All dependencies before the NULL are offered.
abbrev pub EachOffered : List ModuleInfo → Strings → Type 0
EachOffered ms [] = Unit {0}
EachOffered ms (none ∷ r) = Unit {0}
EachOffered ms (some scope ∷ r) = Offered ms scope × EachOffered ms r

abbrev pub AllOffered : List ModuleInfo → Option Strings → Type 0
AllOffered ms none = Unit {0}
AllOffered ms (some r) = EachOffered ms r

-- The dependencies of each module are offered by modules before it.
abbrev pub Ordered : (earlier : List ModuleInfo) → List ModuleInfo → Type 0
Ordered earlier [] = Unit {0}
Ordered earlier (m ∷ ms) = AllOffered earlier m.deps × Ordered (earlier ++ (m ∷ [])) ms

pub Offered-append :
    (ms more : List ModuleInfo) (scope : List ℕ) → Offered ms scope → Offered (ms ++ more) scope
Offered-append [] more scope o = absurd o
Offered-append (m ∷ ms) more scope (inl o) = inl o
Offered-append (m ∷ ms) more scope (inr o) = inr (Offered-append ms more scope o)

pub EachOffered-append :
    (ms more : List ModuleInfo) (deps : Strings)
    → EachOffered ms deps
    → EachOffered (ms ++ more) deps
EachOffered-append ms more [] o = tt
EachOffered-append ms more (none ∷ r) o = tt
EachOffered-append ms more (some scope ∷ r) (o, os) =
    (Offered-append ms more scope o, EachOffered-append ms more r os)

pub Ordered-append :
    (earlier ms : List ModuleInfo) (m : ModuleInfo)
    → Ordered earlier ms
    → AllOffered (earlier ++ ms) m.deps
    → Ordered earlier (ms ++ (m ∷ []))
Ordered-append earlier [] m o a = (rw append_nil at a, tt)
Ordered-append earlier (x ∷ ms) m (o, os) a = (
  o,
  Ordered-append (earlier ++ (x ∷ [])) ms m os (
      subst (λ (z : List ModuleInfo). AllOffered z m.deps) (sym (append_assoc earlier (x ∷ []) ms))
        a),
)

-- a comparison that ends with 0
scope_loop-Has :
    (k : ℕ) (scopes : Strings) (scope : List ℕ)
    → scope_loop k scopes scope ≡ some true
    → Has scopes scope
unfolding scope_loop
scope_loop-Has zero scopes scope e = absurd (cc)
scope_loop-Has (suc k) [] scope e = absurd (cc)
scope_loop-Has (suc k) (none ∷ r) scope e = absurd (cc)
scope_loop-Has (suc k) (some s ∷ r) scope e = elim (Bool-cases (same_name s scope)) [
  | inl t ↦ inl t
  | inr t ↦ scope_loop-Has k (some s ∷ r) scope (rw t at e)
]

pub scope_comparator-Offers :
    (k : ℕ) (m : ModuleInfo) (scope : List ℕ)
    → scope_comparator k m scope ≡ some true
    → Offers m.scopes scope
unfolding scope_comparator
scope_comparator-Offers k m scope e = go m.scopes e
  where
    go :
        (o : Option Strings)
        → (elim o [ none ↦ some false | some scopes ↦ scope_loop k scopes scope ]) ≡ some true
        → Offers o scope
    go none e = absurd (cc)
    go (some r) e = scope_loop-Has k r scope e

find_module-Offered :
    (k : ℕ) (ms : List ModuleInfo) (scope : List ℕ) (r : ModuleInfo × List ModuleInfo)
    → find_module k ms scope ≡ some (some r)
    → Offered ms scope
unfolding find_module
find_module-Offered k [] scope r e = absurd (cc)
find_module-Offered k (m ∷ ms) scope r e = elim (Option-cases (scope_comparator k m scope)) [
  | inl n ↦ absurd (cc (rw n at e))
  | inr (true, n) ↦ inl (scope_comparator-Offers k m scope n)
  | inr (false, n) ↦ elim (Option-cases (find_module k ms scope)) [
    | inl n' ↦ absurd (cc (rw (n, n') at e))
    | inr (none, n') ↦ absurd (cc (rw (n, n') at e))
    | inr (some r', n') ↦ inr (find_module-Offered k ms scope r' n')
  ]
]

pub k_module_check_scope-Offered :
    (k : ℕ) (ms : List ModuleInfo) (scope : List ℕ)
    → k_module_check_scope k ms scope ≡ some true
    → Offered ms scope
unfolding k_module_check_scope
k_module_check_scope-Offered k ms scope e = elim (Option-cases (find_module k ms scope)) [
  | inl n ↦ absurd (cc (rw n at e))
  | inr (none, n) ↦ absurd (cc (rw n at e))
  | inr (some r, n) ↦ find_module-Offered k ms scope r n
]
