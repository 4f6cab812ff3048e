-- ===== src/Exec/Module/Tests.antt =====
-- A module that needs the scope of the next one, and one whose scope is not asked for.
use wyrm_os.Base.{
  ℕ, ◌≡◌, ◌⊎◌, inl, inr, refl, Bool, true, false, none, some, List, [], ◌∷◌, pos, arith,
}
use wyrm_os.Exec.Module.{
  ModuleInfo, scope_comparator, scope_loop, load_modules, load_all, load_recursive, load_deps,
  finish_load, find_module, k_module_check_scope,
}
use wyrm_os.Exec.Module.Order.{Ordered}
use wyrm_os.Exec.Module.Search.{AllQ, ReadyDeps}
use wyrm_os.Exec.Module.Load.{load_modules-Ordered}

abbrev disk : List ℕ
disk = 100 ∷ 115 ∷ []

abbrev ahci : ModuleInfo
ahci = record { name = 97 ∷ []; result = pos 0; scopes = some (some disk ∷ none ∷ []); deps = none }

abbrev ext : ModuleInfo
ext = record { name = 101 ∷ []; result = pos 0; scopes = none; deps = some (some disk ∷ none ∷ []) }

abbrev Known : ModuleInfo → Type 0
Known m = (m ≡ ahci) ⊎ (m ≡ ext)

compares : (m : ModuleInfo) → Known m → (b : Bool) × (scope_comparator 1 m disk ≡ some b)
unfolding scope_comparator scope_loop
compares m (inl e) = (true, rw e refl)
compares m (inr e) = (false, rw e refl)

ready : (m : ModuleInfo) → Known m → ReadyDeps 1 Known m.deps
ready m (inl e) = rw e tt
ready m (inr e) = rw e (compares, tt)

load_modules-Ordered_example :
    (loaded : List ModuleInfo) × (load_modules 3 2 1 (ext ∷ ahci ∷ []) ≡ some loaded)
    × Ordered [] loaded
    × AllQ 1 Known loaded
load_modules-Ordered_example =
    load_modules-Ordered 1 Known ready 3 2 (ext ∷ ahci ∷ []) (inr refl, (inl refl, tt))
      (omega arith) (omega arith)

-- The module that is needed comes first.
load_modules_lem : load_modules 3 2 1 (ext ∷ ahci ∷ []) ≡ some (ahci ∷ ext ∷ [])
unfolding load_modules load_all load_recursive load_deps finish_load find_module
    k_module_check_scope scope_comparator scope_loop
load_modules_lem = refl
