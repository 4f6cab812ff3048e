-- ===== src/Libc/Ctype.antt =====
-- lib/libc/ctype/ctype.c on the codes from 0 on; an `int` result is read as true or false.
use wyrm_os.Base.{
  ℕ, ◌+◌, ◌-◌, ◌<◌, ◌≡◌, Bool, true, false, not, ◌&&◌, ◌||◌, ◌==◌, leb, arith, if◌then◌else◌,
}

abbrev pub isspace : ℕ → Bool
isspace c = (c == 9) || (c == 10) || (c == 11) || (c == 12) || (c == 13) || (c == 32)

abbrev pub isalpha : ℕ → Bool
isalpha c = (leb 65 c && leb c 90) || (leb 97 c && leb c 122)

abbrev pub isdigit : ℕ → Bool
isdigit c = leb 48 c && leb c 57

abbrev pub isalnum : ℕ → Bool
isalnum c = isalpha c || isdigit c

abbrev pub isblank : ℕ → Bool
isblank c = isspace c

abbrev pub iscntrl : ℕ → Bool
iscntrl c = (c == 0x7F) || leb c 0x1F

abbrev pub isgraph : ℕ → Bool
isgraph c = leb 0x21 c && leb c 0x7E

abbrev pub islower : ℕ → Bool
islower c = leb 97 c && leb c 122

abbrev pub isupper : ℕ → Bool
isupper c = leb 65 c && leb c 90

abbrev pub isprint : ℕ → Bool
isprint c = leb 0x20 c && leb c 0x7E

abbrev pub ispunct : ℕ → Bool
ispunct c = not (c == 32) && (not (isalnum c) && isprint c)

abbrev pub isxdigit : ℕ → Bool
isxdigit c = isdigit c || ((leb 65 c && leb c 70) || (leb 97 c && leb c 102))

abbrev pub toupper : ℕ → ℕ
toupper c = if islower c then c - 97 + 65 else c

abbrev pub tolower : ℕ → ℕ
tolower c = if isupper c then c - 65 + 97 else c

abbrev count : Bool → ℕ
count b = if b then 1 else 0

-- Every ASCII code is exactly one of a control code, the space, a letter, a digit and punctuation.
pub classes-one :
    (c : ℕ)
    → c < 128
    → count (iscntrl c)
        + count (c == 32)
        + count (isalpha c)
        + count (isdigit c)
        + count (ispunct c)
      ≡ 1
classes-one c h = ground arith

-- `tolower` undoes `toupper` up to case, gives back a lower-case letter, and `toupper` of a code is
-- never lower case.
pub tolower-toupper :
    (c : ℕ)
    → (tolower (toupper c) ≡ tolower c)
      × (islower c ≡ true → tolower (toupper c) ≡ c)
      × (islower (toupper c) ≡ false)
tolower-toupper c = (ground arith, λ h. ground arith, ground arith)
