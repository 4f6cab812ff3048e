-- ===== src/Fs/Vfs.antt =====
-- kernel/fs/fs.c: the tree of mount points, mounting and opening. The file systems' own nodes are
-- values of a type `Fs`; the operation `open` of a node is an argument. Paths are given by their
-- parts, as path_parse makes them. A tree is a value, and a call gives the tree that it leaves.
pub mod Mount
mod Tests
use wyrm_os.Base.{
  ℕ, ◌≡◌, ◌∙◌, ◌⊎◌, inl, inr, refl, ap, sym, Bool, true, false, ◌&&◌, Option, none, some, List, [],
  ◌∷◌, ◌++◌, ltb, length, take, ◌==◌, if◌then◌else◌, arith, Bool-cases, Option-cases, given,
}

-- `vfs_node` with its tree: its name, `root`, and the children in order.
mutual
  pub data Vfs (Fs : Type 0) : Type 0 where
    vnode : List ℕ → Option Fs → Forest Fs → Vfs Fs

  pub data Forest (Fs : Type 0) : Type 0 where
    nil : Forest Fs
    child : Vfs Fs → Forest Fs → Forest Fs

-- FS_NODE_NAME_LENGTH
abbrev pub name_length : ℕ
name_length = 256

-- `strcmp(a, b) == 0`
abbrev pub same_name : List ℕ → List ℕ → Bool
same_name [] [] = true
same_name [] (y ∷ ys) = false
same_name (x ∷ xs) [] = false
same_name (x ∷ xs) (y ∷ ys) = if x == y then same_name xs ys else false

-- What k_fs_open returns: the node that __open_vfs makes for a mount point, a copy of a mounted
-- node, or what the mounted node's own operation returns.
pub data Opened (Fs : Type 0) : Type 0 where
  open_vfs : Vfs Fs → Opened Fs
  dup : Fs → Opened Fs
  opened : Fs → Opened Fs

module _ {Fs : Type 0} where
  abbrev pub name_of : Vfs Fs → List ℕ
  name_of (vnode name root children) = name

  abbrev pub root_of : Vfs Fs → Option Fs
  root_of (vnode name root children) = root

  abbrev pub children_of : Vfs Fs → Forest Fs
  children_of (vnode name root children) = children

  -- strncpy leaves no NUL behind a name of 256 bytes or more: `behind name` is what strcmp reads on, the
  -- bytes of `owner` and what follows, up to a NUL.
  abbrev pub alloc_vfs_node : (behind : List ℕ → List ℕ) → List ℕ → Vfs Fs
  alloc_vfs_node behind name =
      vnode (if ltb (length name) name_length then name else take name_length name ++ behind name)
        none nil

  -- tree_find_child_cmp with the comparator of names
  abbrev pub find_child : Forest Fs → List ℕ → Option (Vfs Fs)
  find_child nil name = none
  find_child (child v f) name =
      let rest = find_child f name in if same_name (name_of v) name then some v else rest

  -- The deepest mount point on the path, and the parts of the path that are left.
  abbrev pub get_mountpoint : Vfs Fs → List (List ℕ) → Vfs Fs × List (List ℕ)
  get_mountpoint v [] = (v, [])
  get_mountpoint v (c ∷ cs) = elim (find_child (children_of v) c) [
    | none ↦ (v, c ∷ cs)
    | some next ↦ get_mountpoint next cs
  ]

  -- Another tree in the place of the child that find_child finds; a new child at the end.
  abbrev pub replace_child : Forest Fs → List ℕ → Vfs Fs → Forest Fs
  replace_child nil name x = nil
  replace_child (child v f) name x =
      let rest = replace_child f name x in
      if same_name (name_of v) name then child x f else child v rest

  abbrev pub push_child : Forest Fs → Vfs Fs → Forest Fs
  push_child nil x = child x nil
  push_child (child v f) x = child v (push_child f x)

  -- __k_fs_create_mapping, and what its caller then does to the node that it returns: `g`.
  abbrev pub create_mapping :
      (behind : List ℕ → List ℕ) → List (List ℕ) → (Vfs Fs → Vfs Fs) → Vfs Fs → Vfs Fs
  create_mapping behind [] g v = g v
  create_mapping behind (c ∷ cs) g v = elim (find_child (children_of v) c) [
    | none ↦
        vnode (name_of v) (root_of v)
          (push_child (children_of v) (create_mapping behind cs g (alloc_vfs_node behind c)))
    | some next ↦
        vnode (name_of v) (root_of v)
          (replace_child (children_of v) c (create_mapping behind cs g next))
  ]

  -- `n->root = node` unless something is mounted already
  abbrev pub set_root : Fs → Vfs Fs → Vfs Fs
  set_root fs v = elim (root_of v) [
    | none ↦ vnode (name_of v) (some fs) (children_of v)
    | some other ↦ v
  ]

  pub k_fs_mount_node : (behind : List ℕ → List ℕ) → Vfs Fs → List (List ℕ) → Fs → Vfs Fs
  k_fs_mount_node behind t path fs = create_mapping behind path (set_root fs) t

  -- The end of k_fs_open. `ops` is NULL where the node has no operation `open`; its result `none` is
  -- NULL.
  abbrev pub open_left :
      (Fs → Option (List (List ℕ) → ℕ → Option Fs))
      → (flags : ℕ) → Vfs Fs
      → (left : List (List ℕ)) → Option (Opened Fs)
  open_left ops flags mountpoint [] = elim (root_of mountpoint) [
    | none ↦ some (open_vfs mountpoint)
    | some root ↦ some (dup root)
  ]
  open_left ops flags mountpoint (c ∷ cs) = elim (root_of mountpoint) [
    | none ↦ none
    | some root ↦ elim (ops root) [
      | none ↦ none
      | some op ↦ elim (op (c ∷ cs) flags) [ none ↦ none | some fs ↦ some (opened fs) ]
    ]
  ]

  pub k_fs_open :
      (Fs → Option (List (List ℕ) → ℕ → Option Fs))
      → Vfs Fs
      → List (List ℕ)
      → (flags : ℕ) → Option (Opened Fs)
  k_fs_open ops t path flags =
      let (mountpoint, left) = get_mountpoint t path in open_left ops flags mountpoint left
