-- ===== src/Types/DList.antt =====
-- lib/types/list.c, function by function; list_swap and list_sort_cmp are in DList/Sort. The address
-- that `malloc` returns is an argument. The laws are in the modules below.
pub mod Chain
pub mod Insert
pub mod Clear
pub mod Delete
pub mod InsertAt
pub mod Pop
pub mod Prepend
pub mod Query
pub mod Sort
mod Tests
use wyrm_os.Base.{ℕ, zero, suc, Bool, not, ◌==◌, leb, inc64, dec64, if◌then◌else◌, some, none}
use wyrm_os.Types.Heap.{
  Ptr, null, Cmd, pure, fault, ◌>>=◌, ◌>>◌, assert, is_null, load, load_list, put, put_list,
  set_next, set_prev, set_owner, set_head, set_tail, set_size,
}

abbrev pub when : Bool → Cmd (Unit {0}) → Cmd (Unit {0})
when b m = if b then m else pure tt

-- `l->size++` and `l->size--`
abbrev pub grow : Ptr → Cmd (Unit {0})
grow l = do x ← load_list l; set_size l (inc64 x.size)

abbrev pub shrink : Ptr → Cmd (Unit {0})
shrink l = do x ← load_list l; set_size l (dec64 x.size)

-- `free(n)`
abbrev pub free_node : Ptr → Cmd (Unit {0})
free_node n = do load n; put n none

pub list_create : (fresh : Ptr) → Cmd Ptr
list_create fresh = do
  assert (not (is_null fresh))
  put_list fresh (some (record { head = null; tail = null; size = 0 }))
  pure fresh

-- `owner` is what `malloc` has left in the word that nothing sets.
pub list_create_node : (fresh owner : Ptr) → Ptr → Cmd Ptr
list_create_node fresh owner v = do
  assert (not (is_null fresh))
  put fresh (some (record { next = null; prev = null; value = v; owner = owner }))
  pure fresh

-- The `while(list->head)` loop of `list_clear`, `k` rounds at most.
pub clear_loop : ℕ → Ptr → Cmd (Unit {0})
clear_loop zero l = fault
clear_loop (suc k) l = do
  x ← load_list l
  let rest = clear_loop k l
  if is_null x.head then pure tt else do n ← load x.head; free_node x.head; set_head l n.next; rest

pub list_clear : ℕ → Ptr → Cmd (Unit {0})
list_clear k l = do
  assert (not (is_null l))
  clear_loop k l
  set_head l null
  set_tail l null
  set_size l 0

pub list_free : ℕ → Ptr → Cmd (Unit {0})
list_free k l = do list_clear k l; put_list l none

pub list_append : Ptr → Ptr → Cmd (Unit {0})
list_append l n = do
  assert (not (is_null l))
  set_owner n l
  set_next n null
  x ← load_list l
  if is_null x.tail
      then (do set_prev n null; set_head l n; set_tail l n)
      else (do set_prev n x.tail; set_next x.tail n; set_tail l n)
  grow l

pub list_prepend : Ptr → Ptr → Cmd (Unit {0})
list_prepend l n = do
  assert (not (is_null l))
  x ← load_list l
  if is_null x.head then list_append l n else do
    set_owner n l
    set_prev n null
    set_prev x.head n
    set_next n x.head
    set_head l n
    grow l

pub list_push_back : (fresh owner : Ptr) → Ptr → Ptr → Cmd Ptr
list_push_back fresh owner l v = do
  assert (not (is_null l))
  n ← list_create_node fresh owner v
  list_append l n
  pure n

pub list_push_front : (fresh owner : Ptr) → Ptr → Ptr → Cmd Ptr
list_push_front fresh owner l v = do
  assert (not (is_null l))
  n ← list_create_node fresh owner v
  list_prepend l n
  pure n

pub list_pop_back : Ptr → Cmd Ptr
list_pop_back l = do
  assert (not (is_null l))
  x ← load_list l
  if is_null x.tail then pure null else do
    n ← load x.tail
    set_tail l n.prev
    when (x.tail == x.head) (set_head l n.prev)
    if is_null n.prev then set_head l null else set_next n.prev null
    set_next x.tail null
    set_prev x.tail null
    set_owner x.tail null
    shrink l
    pure x.tail

pub list_pop_front : Ptr → Cmd Ptr
list_pop_front l = do
  assert (not (is_null l))
  x ← load_list l
  if is_null x.head then pure null else do
    n ← load x.head
    set_head l n.next
    if is_null n.next then set_tail l null else set_prev n.next null
    shrink l
    set_next x.head null
    set_prev x.head null
    set_owner x.head null
    pure x.head

-- The `while(i)` loop of `list_get`.
pub get_loop : ℕ → Ptr → Cmd Ptr
get_loop zero n = pure n
get_loop (suc i) n = do x ← load n; get_loop i x.next

pub list_get : Ptr → ℕ → Cmd Ptr
unfolding get_loop
list_get l i = do
  assert (not (is_null l))
  x ← load_list l
  if leb x.size i then pure null else get_loop i x.head

pub list_get_raw : Ptr → ℕ → Cmd Ptr
list_get_raw l i = do
  assert (not (is_null l))
  n ← list_get l i
  if is_null n then pure null else do x ← load n; pure x.value

pub list_delete : Ptr → Ptr → Cmd (Unit {0})
list_delete l n = do
  assert (not (is_null l))
  x ← load n
  assert (x.owner == l)
  when (not (is_null x.prev)) (set_next x.prev x.next)
  y ← load n
  when (not (is_null y.next)) (set_prev y.next y.prev)
  z ← load n
  hd ← load_list l
  when (n == hd.head) (set_head l z.next)
  when (n == hd.tail) (set_tail l z.prev)
  free_node n
  shrink l

pub list_remove : Ptr → ℕ → Cmd (Unit {0})
list_remove l i = do
  assert (not (is_null l))
  n ← list_get l i
  when (not (is_null n)) (list_delete l n)

-- `foreach` of `list_find_cmp`, `k` rounds at most; `cmp x` tells whether `cmp(x, v) == 0`.
pub find_loop : (Ptr → Bool) → ℕ → Ptr → Cmd Ptr
find_loop cmp zero e = fault
find_loop cmp (suc k) e =
    if is_null e
    then pure null
    else do x ← load e; if cmp x.value then pure e else find_loop cmp k x.next

pub list_find_cmp : (cmp : Ptr → Bool) → ℕ → Ptr → Cmd Ptr
unfolding find_loop
list_find_cmp cmp k l = do assert (not (is_null l)); x ← load_list l; find_loop cmp k x.head

pub list_insert_after : (fresh owner : Ptr) → Ptr → Ptr → Ptr → Cmd Ptr
list_insert_after fresh owner l p d = do
  x ← load p
  assert (x.owner == l)
  r ← list_create_node fresh owner d
  set_owner r l
  set_prev r p
  set_next r x.next
  hd ← load_list l
  if not (is_null x.next) then set_prev x.next r else when (p == hd.tail) (set_tail l r)
  set_next p r
  grow l
  pure r

pub list_insert_before : (fresh owner : Ptr) → Ptr → Ptr → Ptr → Cmd Ptr
list_insert_before fresh owner l p d = do
  x ← load p
  assert (x.owner == l)
  r ← list_create_node fresh owner d
  set_owner r l
  set_next r p
  set_prev r x.prev
  hd ← load_list l
  if not (is_null x.prev) then set_next x.prev r else when (p == hd.head) (set_head l r)
  set_prev p r
  grow l
  pure r
