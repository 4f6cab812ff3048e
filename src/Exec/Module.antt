-- ===== src/Exec/Module.antt =====
-- kernel/exec/module.c: the scopes and dependencies of modules and the order in which they are
-- loaded. Strings are their bytes; an array of strings is its pointers, where `none` is NULL, and a
-- read behind it is a fault. `k` bounds the rounds of __scope_comparator; the result `none` is a fault
-- or that the rounds run out.
pub mod Order
mod Search
mod Further
pub mod Load
mod Tests
use wyrm_os.Base.{
  ℕ, zero, suc, Bool, true, false, not, Option, none, some, List, [], ◌∷◌, ◌++◌, if◌then◌else◌, ℤ,
  pos, negsuc,
}
use wyrm_os.Base.Fail.{◌>>=◌}
use wyrm_os.Fs.Vfs.{same_name}
use wyrm_os.Exec.Initrd.{is_zero}

abbrev pub Strings : Type 0
Strings = List (Option (List ℕ))

-- `struct module_info`; `result` is what the module's own `load` returns.
pub record ModuleInfo : Type 0 where
  pub name : List ℕ
  pub result : ℤ
  pub scopes : Option Strings
  pub deps : Option Strings

-- The loop of __scope_comparator, which stays at the first pointer; true is 0.
pub scope_loop : (k : ℕ) → Strings → (scope : List ℕ) → Option Bool
scope_loop zero scopes scope = none
scope_loop (suc k) [] scope = none
scope_loop (suc k) (none ∷ scopes) scope = some false
scope_loop (suc k) (some s ∷ scopes) scope =
    let rest = scope_loop k (some s ∷ scopes) scope in if same_name s scope then some true else rest

pub scope_comparator : (k : ℕ) → ModuleInfo → (scope : List ℕ) → Option Bool
unfolding scope_loop
scope_comparator k mod_info scope = elim mod_info.scopes [
  | none ↦ some false
  | some scopes ↦ scope_loop k scopes scope
]

-- `list_find_cmp` with __scope_comparator: the module, and the list without it
pub find_module :
    (k : ℕ) → List ModuleInfo → (scope : List ℕ) → Option (Option (ModuleInfo × List ModuleInfo))
unfolding scope_comparator
find_module k [] scope = some none
find_module k (m ∷ ms) scope =
    let rest = find_module k ms scope in
    scope_comparator k m scope >>= λ same.
    if same
    then some (some (m, ms))
    else (do r ← rest; some (elim r [ none ↦ none | some (m', ms') ↦ some (m', m ∷ ms') ]))

pub k_module_check_scope : (k : ℕ) → (loaded : List ModuleInfo) → (scope : List ℕ) → Option Bool
unfolding find_module
k_module_check_scope k loaded scope = do
  r ← find_module k loaded scope
  some (elim r [ none ↦ false | some m ↦ true ])

-- The modules to load, and `__loaded_modules`
pub record Loader : Type 0 where
  pub cache : List ModuleInfo
  pub loaded : List ModuleInfo

-- The loop over the dependencies; `load` is __load_recursive, on a module that was taken off the
-- cache.
pub load_deps :
    (ModuleInfo → Loader → Option (ℤ × Loader)) → (k : ℕ) → Strings → Loader → Option (ℤ × Loader)
unfolding k_module_check_scope find_module
load_deps load k [] s = none
load_deps load k (none ∷ deps) s = some (pos 0, s)
load_deps load k (some scope ∷ deps) s = k_module_check_scope k s.loaded scope >>= λ resolved.
    if resolved
    then load_deps load k deps s
    else (find_module k s.cache scope >>= λ found. elim found [
      | none ↦ some (negsuc 0, s)
      | some (m, cache) ↦ load m (record s { cache = cache }) >>= λ (r, s').
          if is_zero r then load_deps load k deps s' else some (r, s')
    ])

-- The end of __load_recursive, where the dependencies gave `r`
pub finish_load : ModuleInfo → (r : ℤ) → Loader → ℤ × Loader
finish_load m r s =
    if is_zero r
    then (if is_zero m.result
        then (m.result, record s { loaded = s.loaded ++ (m ∷ []) })
        else (m.result, s))
    else (r, s)

-- `__load_recursive`, with `depth` calls within each other at most
pub load_recursive : (depth k : ℕ) → ModuleInfo → Loader → Option (ℤ × Loader)
unfolding load_deps finish_load
load_recursive zero k m s = none
load_recursive (suc depth) k m s = elim m.deps [
  | none ↦ some (finish_load m (pos 0) s)
  | some deps ↦ load_deps (load_recursive depth k) k deps s >>= λ (r, s'). some (finish_load m r s')
]

-- `while(to_load->head)`
pub load_all : (rounds depth k : ℕ) → Loader → Option Loader
unfolding load_recursive
load_all zero depth k s = none
load_all (suc rounds) depth k s = elim s.cache [
  | [] ↦ some s
  | m ∷ cache ↦ load_recursive depth k m (record s { cache = cache }) >>= λ (r, s').
      load_all rounds depth k s'
]

-- The part of k_load_modules behind the loop over /modules, which has found `infos`
pub load_modules : (rounds depth k : ℕ) → (infos : List ModuleInfo) → Option (List ModuleInfo)
unfolding load_all
load_modules rounds depth k infos = do
  s ← load_all rounds depth k (record { cache = infos; loaded = [] })
  some s.loaded

-- `__k_check_dependencies`: the first dependency alone
pub check_dependencies : (k : ℕ) → (loaded : List ModuleInfo) → ModuleInfo → Option Bool
unfolding k_module_check_scope
check_dependencies k loaded m = elim m.deps [
  | none ↦ none
  | some [] ↦ none
  | some (none ∷ deps) ↦ none
  | some (some scope ∷ deps) ↦ k_module_check_scope k loaded scope
]

-- `info` is what __k_preload_module has found, `none` for NULL.
pub k_load_module : (k : ℕ) → (loaded : List ModuleInfo) → (info : Option ModuleInfo) → Option ℤ
unfolding check_dependencies
k_load_module k loaded info = elim info [
  | none ↦ some (negsuc 0)
  | some m ↦
      check_dependencies k loaded m >>= λ resolved. some (if resolved then m.result else negsuc 1)
]
