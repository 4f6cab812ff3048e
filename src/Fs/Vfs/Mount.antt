-- ===== src/Fs/Vfs/Mount.antt =====
-- Mounting and then opening, for the tree of kernel/fs/fs.c.
use wyrm_os.Base.{
  ℕ, ◌≡◌, ◌∙◌, ◌⊎◌, inl, inr, refl, ap, true, Option, none, some, List, [], ◌∷◌, length, ltb, ◌<◌,
  arith, Bool-cases, Option-cases, given,
}
use wyrm_os.Fs.Vfs.{
  Vfs, Forest, vnode, nil, child, dup, name_length, same_name, name_of, root_of, children_of,
  alloc_vfs_node, find_child, get_mountpoint, replace_child, push_child, create_mapping, set_root,
  open_left, k_fs_mount_node, k_fs_open,
}

same_name-eq : (xs ys : List ℕ) → same_name xs ys ≡ true → xs ≡ ys
same_name-eq [] [] e = refl
same_name-eq [] (y ∷ ys) e = absurd (ground arith)
same_name-eq (x ∷ xs) [] e = absurd (ground arith)
same_name-eq (x ∷ xs) (y ∷ ys) e =
    let head : x ≡ y = ground arith in
    let tail : same_name xs ys ≡ true = ground arith in let rest = same_name-eq xs ys tail in cc

same_name_self : (xs : List ℕ) → same_name xs xs ≡ true
same_name_self [] = refl
same_name_self (x ∷ xs) = let rest = same_name_self xs in ground arith

-- Parts that leave room for a NUL in the name of a mount point
abbrev pub Short : List (List ℕ) → Type 0
Short [] = Unit {0}
Short (c ∷ cs) = (length c < name_length) × Short cs

module _ {Fs : Type 0} (behind : List ℕ → List ℕ) where
  find_child-name :
      (f : Forest Fs) (c : List ℕ) (v : Vfs Fs)
      → find_child f c ≡ some v
      → same_name (name_of v) c ≡ true
  find_child-name nil c v e = absurd (cc)
  find_child-name (child w f) c v e = elim (Bool-cases (same_name (name_of w) c)) [
    | inl yes' ↦ let same : w ≡ v = some_injective (rw yes' at e) in rw⁻¹ same yes'
    | inr no' ↦ find_child-name f c v (rw no' at e)
  ]
    where
      some_injective : {a b : Vfs Fs} → some a ≡ some b → a ≡ b
      some_injective e = cc

  -- The child that was replaced, or added, is found again under its name.
  find_child-replace_child :
      (f : Forest Fs) (c : List ℕ) (v x : Vfs Fs)
      → find_child f c ≡ some v
      → same_name (name_of x) c ≡ true
      → find_child (replace_child f c x) c ≡ some x
  find_child-replace_child nil c v x e same = absurd (cc)
  find_child-replace_child (child w f) c v x e same = elim (Bool-cases (same_name (name_of w) c)) [
    | inl yes' ↦ rw (yes', same) refl
    | inr no' ↦ rw (no', no') (find_child-replace_child f c v x (rw no' at e) same)
  ]

  find_child-push_child :
      (f : Forest Fs) (c : List ℕ) (x : Vfs Fs)
      → find_child f c ≡ none
      → same_name (name_of x) c ≡ true
      → find_child (push_child f x) c ≡ some x
  find_child-push_child nil c x e same = rw same refl
  find_child-push_child (child w f) c x e same = elim (Bool-cases (same_name (name_of w) c)) [
    | inl yes' ↦ absurd (some-none (rw yes' at e))
    | inr no' ↦ rw no' (find_child-push_child f c x (rw no' at e) same)
  ]
    where
      some-none : {a : Vfs Fs} → some a ≡ none → ⊥
      some-none e = cc

  create_mapping-name :
      (path : List (List ℕ)) (fs : Fs) (v : Vfs Fs)
      → name_of (create_mapping behind path (set_root fs) v) ≡ name_of v
  create_mapping-name [] fs (vnode name none f) = refl
  create_mapping-name [] fs (vnode name (some r) f) = refl
  create_mapping-name (c ∷ cs) fs v = elim (Option-cases (find_child (children_of v) c)) [
    | inl e ↦ rw (create_mapping, e) refl
    | inr (next, e) ↦ rw (create_mapping, e) refl
  ]

  create_mapping-none :
      (c : List ℕ) (cs : List (List ℕ)) (g : Vfs Fs → Vfs Fs) (t : Vfs Fs)
      → find_child (children_of t) c ≡ none
      → create_mapping behind (c ∷ cs) g t
        ≡ vnode
            (name_of t)
            (root_of t)
            (push_child (children_of t) (create_mapping behind cs g (alloc_vfs_node behind c)))
  create_mapping-none c cs g t e = rw (create_mapping, e) refl

  create_mapping-some :
      (c : List ℕ) (cs : List (List ℕ)) (g : Vfs Fs → Vfs Fs) (t next : Vfs Fs)
      → find_child (children_of t) c ≡ some next
      → create_mapping behind (c ∷ cs) g t
        ≡ vnode
            (name_of t)
            (root_of t)
            (replace_child (children_of t) c (create_mapping behind cs g next))
  create_mapping-some c cs g t next e = rw (create_mapping, e) refl

  get_mountpoint-some :
      (c : List ℕ) (cs : List (List ℕ)) (t next : Vfs Fs)
      → find_child (children_of t) c ≡ some next
      → get_mountpoint t (c ∷ cs) ≡ get_mountpoint next cs
  get_mountpoint-some c cs t next e = rw (get_mountpoint, e) refl

  -- The node at the end of a path that has been created, and what it was before.
  get_mountpoint-create_mapping :
      (path : List (List ℕ)) (fs : Fs) (t : Vfs Fs)
      → Short path
      → (v : Vfs Fs) × (get_mountpoint (create_mapping behind path (set_root fs) t) path
          ≡ (set_root fs v, []))
        × ((get_mountpoint t path ≡ (v, [])) ⊎ (root_of v ≡ none))
  get_mountpoint-create_mapping [] fs t short = (t, refl, inl refl)
  get_mountpoint-create_mapping (c ∷ cs) fs t (whole, short) =
      elim (Option-cases (find_child (children_of t) c)) [
        | inl e ↦
            given (get_mountpoint-create_mapping cs fs (alloc_vfs_node behind c) short)
              λ (v, at, before).
                given
                  (find_child-push_child (children_of t) c
                    (create_mapping behind cs (set_root fs) (alloc_vfs_node behind c)) e
                    (named c cs whole))
                  λ here. (
                    v,
                    ap (λ (u : Vfs Fs). get_mountpoint u (c ∷ cs))
                          (create_mapping-none c cs (set_root fs) t e)
                        ∙ (get_mountpoint-some c cs
                              (vnode (name_of t) (root_of t) (
                                push_child (children_of t) (
                                  create_mapping behind cs (set_root fs)
                                    (alloc_vfs_node {Fs = Fs} behind c))))
                              _ here
                            ∙ at),
                    inr (unmounted c cs v before),
                  )
        | inr (next, e) ↦ given (get_mountpoint-create_mapping cs fs next short) λ (v, at, before).
            given
              (find_child-replace_child (children_of t) c next
                (create_mapping behind cs (set_root fs) next) e
                (rw (create_mapping-name cs fs next) (find_child-name (children_of t) c next e)))
              λ here. (
                v,
                ap (λ (u : Vfs Fs). get_mountpoint u (c ∷ cs))
                      (create_mapping-some c cs (set_root fs) t next e)
                    ∙ (get_mountpoint-some c cs
                          (vnode (name_of t) (root_of t) (
                            replace_child (children_of t) c
                              (create_mapping behind cs (set_root fs) next)))
                          _ here
                        ∙ at),
                elim before [ inl b ↦ inl (get_mountpoint-some c cs t next e ∙ b) | inr b ↦ inr b ],
              )
      ]
    where
      cons_nil : {d : List ℕ} {cs : List (List ℕ)} → d ∷ cs ≡ [] → ⊥
      cons_nil e = cc

      unmounted :
          (c : List ℕ) (cs : List (List ℕ)) (v : Vfs Fs)
          → (get_mountpoint (alloc_vfs_node {Fs = Fs} behind c) cs ≡ (v, [])) ⊎ (root_of v ≡ none)
          → root_of v ≡ none
      unmounted c cs v (inr e) = e
      unmounted c [] v (inl e) = rw⁻¹ (ap (λ (p : Vfs Fs × List (List ℕ)). p.0) e) refl
      unmounted c (d ∷ cs) v (inl e) =
          absurd (cons_nil (ap (λ (p : Vfs Fs × List (List ℕ)). p.1) e))

      named :
          (c : List ℕ) (cs : List (List ℕ))
          → length c < name_length
          → same_name (name_of (create_mapping behind cs (set_root fs) (alloc_vfs_node behind c))) c
            ≡ true
      named c cs whole =
          let short : ltb (length c) name_length ≡ true = ground arith in
          rw (create_mapping-name cs fs (alloc_vfs_node behind c), short) (same_name_self c)

  opened_root :
      (ops : Fs → Option (List (List ℕ) → ℕ → Option Fs)) (t : Vfs Fs) (path : List (List ℕ))
      (flags : ℕ) (name : List ℕ) (f : Forest Fs) (fs : Fs)
      → get_mountpoint t path ≡ (vnode name (some fs) f, [])
      → k_fs_open ops t path flags ≡ some (dup fs)
  unfolding k_fs_open
  opened_root ops t path flags name f fs e =
      ap (λ (p : Vfs Fs × List (List ℕ)). open_left ops flags p.0 p.1) e

  -- After k_fs_mount_node of a node on a path where nothing is mounted yet, k_fs_open of the path is a
  -- copy of that node, whatever mappings the path had, where every part of the path is shorter than
  -- 256 bytes.
  pub k_fs_mount_node-k_fs_open :
      (ops : Fs → Option (List (List ℕ) → ℕ → Option Fs)) (t : Vfs Fs) (path : List (List ℕ))
      (fs : Fs) (flags : ℕ)
      → Short path
      → ((v : Vfs Fs) → get_mountpoint t path ≡ (v, []) → root_of v ≡ none)
      → k_fs_open ops (k_fs_mount_node behind t path fs) path flags ≡ some (dup fs)
  unfolding k_fs_open k_fs_mount_node
  k_fs_mount_node-k_fs_open ops t path fs flags short empty =
      given (get_mountpoint-create_mapping path fs t short) λ (v, at, before).
        let bare : root_of v ≡ none = elim before [ inl e ↦ empty v e | inr e ↦ e ] in
        let at' : get_mountpoint (create_mapping behind path (set_root fs) t) path
            ≡ (vnode (name_of v) (some fs) (children_of v), []) =
          at ∙ ap (λ (u : Vfs Fs). (u, [])) (mounted v bare) in
        opened_root ops (k_fs_mount_node behind t path fs) path flags (name_of v) (children_of v) fs
          at'
    where
      mounted :
          (v : Vfs Fs)
          → root_of v ≡ none
          → set_root fs v ≡ vnode (name_of v) (some fs) (children_of v)
      mounted v e = rw (set_root, e) refl
