-- ===== src/Fs/Vfs/Tests.antt =====
-- Mounting into a small tree.
use wyrm_os.Base.{ℕ, ◌≡◌, ap, arith, none, some, List, [], ◌∷◌}
use wyrm_os.Fs.Vfs.{
  Vfs, vnode, nil, child, dup, root_of, get_mountpoint, k_fs_mount_node, k_fs_open,
}
use wyrm_os.Fs.Vfs.Mount.{k_fs_mount_node-k_fs_open}

-- the root with "dev", on which the node 7 is mounted
abbrev tree : Vfs ℕ
tree = vnode [] none (child (vnode (100 ∷ 101 ∷ 118 ∷ []) (some 7) nil) nil)

-- "dev/a"
abbrev dev_a : List (List ℕ)
dev_a = (100 ∷ 101 ∷ 118 ∷ []) ∷ (97 ∷ []) ∷ []

k_fs_mount_node-k_fs_open_example :
    k_fs_open (λ root. none) (k_fs_mount_node (λ name. name) tree dev_a 9) dev_a 0 ≡ some (dup 9)
k_fs_mount_node-k_fs_open_example =
    k_fs_mount_node-k_fs_open (λ name. name) (λ root. none) tree dev_a 9 0
      (omega arith, (omega arith, tt)) not_there
  where
    parts : Vfs ℕ × List (List ℕ) → List (List ℕ)
    parts p = p.1

    nil_cons : {x : List ℕ} {xs : List (List ℕ)} → x ∷ xs ≡ [] → ⊥
    nil_cons e = cc

    not_there : (v : Vfs ℕ) → get_mountpoint tree dev_a ≡ (v, []) → root_of v ≡ none
    not_there v e = absurd (nil_cons (ap parts e))
