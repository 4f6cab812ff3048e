-- ===== src/Exec/Start/Tests.antt =====
-- A program with one segment, started with two arguments and one variable.
use wyrm_os.Base.{ℕ, ◌+◌, ◌*◌, ◌≤◌, ◌≡◌, refl, List, [], ◌∷◌, length, ◌==◌, if◌then◌else◌, arith}
use wyrm_os.Base.Word.{align, pages}
use wyrm_os.Libc.Bytes.{Bytes}
use wyrm_os.Libc.Words.{load_le}
use wyrm_os.Exec.Start.{exec_layout, start_stack, segment_of, add_segment}
use wyrm_os.Exec.Start.Segments.{AllCovered, Loaded, exec_layout-AllCovered}
use wyrm_os.Exec.Start.Vector.{Vector, start_stack-Vector, vector_size}

-- One header, PT_LOAD of 0x1234 bytes at 0x401010, at 64 in a file at 0x100000
abbrev image : Bytes
image q =
    if q == 0x100020
    then 64
    else if q == 0x100036
    then 56
    else if q == 0x100038
    then 1
    else if q == 0x100040
    then 1
    else if q == 0x100050
    then 0x10
    else if q == 0x100051
    then 0x10
    else if q == 0x100052
    then 0x40
    else if q == 0x100068
    then 0x34
    else if q == 0x100069
    then 0x12
    else 0

exec_layout-AllCovered_example :
    Loaded image 0x100040 (exec_layout image 0x100000)
    × AllCovered (exec_layout image 0x100000).segments (exec_layout image 0x100000).exec_end
unfolding load_le
exec_layout-AllCovered_example =
    exec_layout-AllCovered image 0x100000 0 (λ e. omega arith, tt) (omega arith) refl

exec_end_lem : (exec_layout image 0x100000).exec_end ≡ 0x403000
unfolding exec_layout segment_of add_segment load_le pages align
exec_end_lem = refl

abbrev argv : List (List ℕ)
argv = (108 ∷ 115 ∷ []) ∷ (47 ∷ []) ∷ []

abbrev envp : List (List ℕ)
envp = (65 ∷ 61 ∷ 49 ∷ []) ∷ []

abbrev top : ℕ
top = 0x413000

start_stack-Vector_example :
    Vector
      ((start_stack argv envp top image).argv_pointer + 8 * (length argv + 1))
      (start_stack argv envp top image).memory
      (start_stack argv envp top image).argv_pointer
      argv
    × Vector
        ((start_stack argv envp top image).envp_pointer + 8 * (length envp + 1))
        (start_stack argv envp top image).memory
        (start_stack argv envp top image).envp_pointer
        envp
    × ((start_stack argv envp top image).envp_pointer + vector_size envp + vector_size argv ≡ top)
    × ((q : ℕ) → top ≤ q → (start_stack argv envp top image).memory q ≡ image q)
start_stack-Vector_example =
    start_stack-Vector argv envp top image (omega arith) (omega arith) (omega arith) (omega arith)

-- Together 16 bytes of strings and 40 of places
abbrev path : List (List ℕ)
path = (80 ∷ 61 ∷ 47 ∷ 98 ∷ 105 ∷ 110 ∷ 47 ∷ 58 ∷ 47 ∷ 120 ∷ []) ∷ []
