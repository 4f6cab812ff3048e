-- ===== src/Exec/Start/Stack.antt =====
-- The arguments of the program as it finds them on its stack.
use wyrm_os.Base.{
  ℕ, ◌+◌, ◌-◌, ◌^◌, ◌≤◌, ◌<◌, ◌≡◌, ◌∙◌, refl, false, List, [], ◌∷◌, length, ◌==◌, arith, inr, given,
}
use mathlib.Core.Path.{subst, sym}
use wyrm_os.Base.Word.{u64}
use wyrm_os.Libc.Bytes.{Bytes, CString, CString-same}
use wyrm_os.Libc.Words.{store_le-SameBut, load_le-store_le}
use wyrm_os.Exec.Elf.{u64_at}
use wyrm_os.Exec.Initrd.Open.{NonZero}
use wyrm_os.Exec.Start.{Pushed, push_char, push_word, push_chars, push_string, push_strings}

-- `n` bytes are pushed, and nothing above them changes.
pub record Grown (n : ℕ) (s s' : Pushed) : Type 0 where
  pub room : s'.sp + n ≡ s.sp
  pub above : (q : ℕ) → s.sp ≤ q → s'.memory q ≡ s.memory q

pub Grown-refl : (s : Pushed) → Grown 0 s s
Grown-refl s = record { room = omega arith; above = λ q h. refl }

Grown-trans : {a b : ℕ} {s s' s'' : Pushed} → Grown a s s' → Grown b s' s'' → Grown (a + b) s s''
Grown-trans f g = record {
  room = omega (arith, f.room, g.room);
  above = λ q h. g.above q (omega (arith, f.room)) ∙ f.above q h;
}

push_char-Grown : (c : ℕ) (s : Pushed) → 0 < s.sp → s.sp < 2 ^ 64 → Grown 1 s (push_char c s)
unfolding push_char
push_char-Grown c s pos fits = record {
  room = omega arith;
  above = λ q h. let ne : (q == u64 (s.sp + (2 ^ 64 - 1))) ≡ false = ground arith in rw ne refl;
}

pub push_word-Grown : (v : ℕ) (s : Pushed) → 8 ≤ s.sp → s.sp < 2 ^ 64 → Grown 8 s (push_word v s)
unfolding push_word
push_word-Grown v s room fits = record {
  room = omega arith;
  above = λ q h. store_le-SameBut s.memory (u64 (s.sp + (2 ^ 64 - 8))) 8 v q (inr (omega arith));
}

pub push_word_load :
    (v : ℕ) (s : Pushed) → v < 2 ^ 64 → u64_at (push_word v s).memory (push_word v s).sp ≡ v
unfolding push_word
push_word_load v s fits = load_le-store_le s.memory _ 8 v (omega arith)

push_char_top : (c : ℕ) (s : Pushed) → (push_char c s).memory (push_char c s).sp ≡ c
unfolding push_char
push_char_top c s = ground arith

-- A string stays where the bytes from it on do.
pub CString-above :
    (m m' : Bytes) (p : ℕ) (cs : List ℕ)
    → ((q : ℕ) → p ≤ q → m' q ≡ m q)
    → CString m p cs
    → CString m' p cs
CString-above m m' p cs same t = CString-same p cs t (λ q low high. same q low)

push_chars-CString :
    (cs : List ℕ) (s : Pushed)
    → NonZero cs
    → length cs ≤ s.sp
    → s.sp < 2 ^ 64
    → s.memory s.sp ≡ 0
    → Grown (length cs) s (push_chars cs s)
      × CString (push_chars cs s).memory (push_chars cs s).sp cs
unfolding push_chars
push_chars-CString [] s z room fits end = (Grown-refl s, end)
push_chars-CString (c ∷ cs) s (ne, z) room fits end =
    given (push_chars-CString cs s z (omega arith) fits end) λ (g, t).
      let g1 : Grown 1 (push_chars cs s) (push_char c (push_chars cs s)) =
        push_char-Grown c (push_chars cs s) (omega (arith, g.room)) (omega (arith, g.room)) in
      (
        record {
          room = omega (arith, g.room, g1.room);
          above = λ q h. g1.above q (omega (arith, g.room)) ∙ g.above q h;
        },
        (
          push_char_top c (push_chars cs s),
          ne,
          subst (λ (p : ℕ). CString (push_char c (push_chars cs s)).memory p cs) (sym g1.room)
              (CString-above _ _ (push_chars cs s).sp cs g1.above t),
        ),
      )

push_string-CString :
    (cs : List ℕ) (s : Pushed)
    → NonZero cs
    → length cs + 1 ≤ s.sp
    → s.sp < 2 ^ 64
    → Grown (length cs + 1) s (push_string cs s)
      × CString (push_string cs s).memory (push_string cs s).sp cs
unfolding push_string
push_string-CString cs s z room fits =
    let g : Grown 1 s (push_char 0 s) = push_char-Grown 0 s (omega arith) fits in
    given
      (push_chars-CString cs (push_char 0 s) z (omega (arith, g.room)) (omega (arith, g.room))
        (push_char_top 0 s))
      λ (g1, t). (
        record {
          room = omega (arith, g.room, g1.room);
          above = λ q h. g1.above q (omega (arith, g.room)) ∙ g.above q h;
        },
        t,
      )

-- The strings stand at the places.
abbrev pub Strings : Bytes → List ℕ → List (List ℕ) → Type 0
Strings m [] [] = Unit {0}
Strings m [] (cs ∷ strings) = ⊥
Strings m (p ∷ tmp) [] = ⊥
Strings m (p ∷ tmp) (cs ∷ strings) = (p < 2 ^ 64) × CString m p cs × Strings m tmp strings

-- All places are at or above `sp`.
abbrev pub From : ℕ → List ℕ → Type 0
From sp [] = Unit {0}
From sp (p ∷ tmp) = (sp ≤ p) × From sp tmp

From-le : (a b : ℕ) (tmp : List ℕ) → a ≤ b → From b tmp → From a tmp
From-le a b [] le f = tt
From-le a b (p ∷ tmp) le (h, f) = (omega arith, From-le a b tmp le f)

Strings_above :
    (m m' : Bytes) (sp : ℕ) (tmp : List ℕ) (strings : List (List ℕ))
    → ((q : ℕ) → sp ≤ q → m' q ≡ m q)
    → From sp tmp
    → Strings m tmp strings
    → Strings m' tmp strings
Strings_above m m' sp [] [] same f t = tt
Strings_above m m' sp [] (cs ∷ strings) same f t = t
Strings_above m m' sp (p ∷ tmp) [] same f t = t
Strings_above m m' sp (p ∷ tmp) (cs ∷ strings) same (h, f) (lt, t, ts) = (
  lt,
  CString-above m m' p cs (λ q low. same q (omega arith)) t,
  Strings_above m m' sp tmp strings same f ts,
)

-- the bytes of strings with their NULs
abbrev pub bytes_of : List (List ℕ) → ℕ
bytes_of [] = 0
bytes_of (cs ∷ strings) = (length cs + 1) + bytes_of strings

abbrev pub AllNonZero : List (List ℕ) → Type 0
AllNonZero [] = Unit {0}
AllNonZero (cs ∷ strings) = NonZero cs × AllNonZero strings

pub push_strings-Strings :
    (strings : List (List ℕ)) (s : Pushed)
    → AllNonZero strings
    → bytes_of strings ≤ s.sp
    → s.sp < 2 ^ 64
    → Grown (bytes_of strings) s (push_strings strings s).1
      × Strings (push_strings strings s).1.memory (push_strings strings s).0 strings
      × From (push_strings strings s).1.sp (push_strings strings s).0
      × (length (push_strings strings s).0 ≡ length strings)
unfolding push_strings
push_strings-Strings [] s z room fits = (Grown-refl s, tt, tt, refl)
push_strings-Strings (cs ∷ strings) s (z, zs) room fits =
    given (push_strings-Strings strings s zs (omega arith) fits) λ (g, t, f, l).
      given
        (push_string-CString cs (push_strings strings s).1 z (omega (arith, g.room))
          (omega (arith, g.room)))
        λ (g1, c). (
          record {
            room = omega (arith, g.room, g1.room);
            above = λ q h. g1.above q (omega (arith, g.room)) ∙ g.above q h;
          },
          (
            omega (arith, g.room, g1.room),
            c,
            Strings_above _ _ (push_strings strings s).1.sp _ strings g1.above f t,
          ),
          (omega arith, From-le _ _ _ (omega (arith, g1.room)) f),
          omega arith,
        )
