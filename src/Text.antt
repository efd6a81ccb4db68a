-- ===== src/Text.antt =====
-- src/libc/ctype.c and src/libc/string.c. A string is the list of its bytes before the terminator;
-- memory is a function from addresses to bytes.
pub mod Compare
pub mod Move
pub mod Search
mod Tests
use boss.Prelude.{
  ℕ, zero, suc, ◌+◌, ◌-◌, ◌≡◌, Bool, true, false, Option, none, some, List, [], ◌∷◌, ltb, leb, ◌==◌,
  ◌&&◌, ◌||◌, if◌then◌else◌, ℤ, pos, negsuc, ◌-ℤ◌,
}

-- A `char` is signed.
abbrev pub schar : ℕ → ℤ
schar c = if ltb c 128 then pos c else negsuc (255 - c)

abbrev pub isdigit : ℕ → Bool
isdigit c = leb b'0' c && leb c b'9'

abbrev pub isupper : ℕ → Bool
isupper c = leb b'A' c && leb c b'Z'

abbrev pub islower : ℕ → Bool
islower c = leb b'a' c && leb c b'z'

abbrev pub isalpha : ℕ → Bool
isalpha c = isupper c || islower c

abbrev pub isalnum : ℕ → Bool
isalnum c = isalpha c || isdigit c

abbrev pub isgraph : ℕ → Bool
isgraph c = ltb 32 c && leb c b'~'

abbrev pub isprint : ℕ → Bool
isprint c = isgraph c || c == 32

abbrev pub isblank : ℕ → Bool
isblank c = c == b' ' || c == 9

abbrev pub isspace : ℕ → Bool
isspace c = isblank c || c == 12 || c == 10 || c == 13 || c == 11

abbrev pub tolower : ℕ → ℕ
tolower c = if isupper c then c + 32 else c

abbrev pub toupper : ℕ → ℕ
toupper c = if islower c then c - 32 else c

-- `while(*s1 && f(*s1) == f(*s2)) s1++, s2++; return f(*s1) - f(*s2);`
unfoldable pub diff_by : (ℕ → ℕ) → List ℕ → List ℕ → ℤ
diff_by f [] [] = pos 0
diff_by f [] (d ∷ t) = schar (f 0) -ℤ schar (f d)
diff_by f (c ∷ s) [] = schar (f c) -ℤ schar (f 0)
diff_by f (c ∷ s) (d ∷ t) =
    let rest = diff_by f s t in if f c == f d then rest else schar (f c) -ℤ schar (f d)

unfoldable pub strcmp : List ℕ → List ℕ → ℤ
strcmp s t = diff_by (λ c. c) s t

unfoldable pub strcasecmp : List ℕ → List ℕ → ℤ
strcasecmp s t = diff_by tolower s t

-- The loop of `strncmp` with `n` before the test `n-- > 0`, and the two returns behind it: at a
-- difference `n` has been counted down once more.
pub ndiff_by : (ℕ → ℕ) → ℕ → List ℕ → List ℕ → ℤ
ndiff_by f zero s t = pos 0
ndiff_by f (suc n) [] [] = pos 0
ndiff_by f (suc n) [] (d ∷ t) = if n == 0 then pos 0 else schar (f 0) -ℤ schar (f d)
ndiff_by f (suc n) (c ∷ s) [] = if n == 0 then pos 0 else schar (f c) -ℤ schar (f 0)
ndiff_by f (suc n) (c ∷ s) (d ∷ t) =
    let rest = ndiff_by f n s t in
    if f c == f d then rest else if n == 0 then pos 0 else schar (f c) -ℤ schar (f d)

pub strncmp : List ℕ → List ℕ → ℕ → ℤ
strncmp s t n = ndiff_by (λ c. c) n s t

pub strncasecmp : List ℕ → List ℕ → ℕ → ℤ
strncasecmp s t n = ndiff_by tolower n s t

-- `strchr`: the string from the first `c` on.
pub strchr : List ℕ → ℕ → Option (List ℕ)
strchr [] c = none
strchr (a ∷ s) c = if a == c then some (a ∷ s) else strchr s c

-- `strrchr`: the string from the last `c` on.
pub strrchr : List ℕ → ℕ → Option (List ℕ)
strrchr [] c = none
strrchr (a ∷ s) c =
    let rest = strrchr s c in
    elim rest [ some r ↦ some r | none ↦ if a == c then some (a ∷ s) else none ]

pub strlen : List ℕ → ℕ
strlen [] = 0
strlen (c ∷ s) = strlen s + 1

-- The inner loop of `strstr` and `strcasestr`, which compare `f` of each byte: whether it ends at the
-- end of `sub`.
pub matches_by : (ℕ → ℕ) → List ℕ → List ℕ → Bool
matches_by f s [] = true
matches_by f [] (d ∷ sub) = false
matches_by f (c ∷ s) (d ∷ sub) = let rest = matches_by f s sub in f c == f d && rest

-- The string from the first match on; an empty string has no match.
pub find_by : (ℕ → ℕ) → List ℕ → List ℕ → Option (List ℕ)
find_by f [] sub = none
find_by f (c ∷ s) sub =
    let rest = find_by f s sub in if matches_by f (c ∷ s) sub then some (c ∷ s) else rest

pub strstr : List ℕ → List ℕ → Option (List ℕ)
strstr str sub = find_by (λ c. c) str sub

pub strcasestr : List ℕ → List ℕ → Option (List ℕ)
strcasestr str sub = find_by tolower str sub

-- `*a = v`
abbrev pub store : (ℕ → ℕ) → ℕ → ℕ → ℕ → ℕ
store mem a v x = if x == a then v else mem x

-- The two loops of `memmove`.
pub copy_forward : ℕ → ℕ → ℕ → (ℕ → ℕ) → ℕ → ℕ
copy_forward dest src zero mem = mem
copy_forward dest src (suc n) mem = copy_forward (dest + 1) (src + 1) n (store mem dest (mem src))

pub copy_backward : ℕ → ℕ → ℕ → (ℕ → ℕ) → ℕ → ℕ
copy_backward dest src zero mem = mem
copy_backward dest src (suc n) mem = copy_backward dest src n (store mem (dest + n) (mem (src + n)))

-- `strcpy` and `strncpy`, which write no terminator where `n` bytes have been copied before it.
pub strcpy : ℕ → List ℕ → (ℕ → ℕ) → ℕ → ℕ
strcpy dest [] mem = store mem dest 0
strcpy dest (c ∷ s) mem = strcpy (dest + 1) s (store mem dest c)

pub strncpy : ℕ → List ℕ → ℕ → (ℕ → ℕ) → ℕ → ℕ
strncpy dest s zero mem = mem
strncpy dest [] (suc n) mem = store mem dest 0
strncpy dest (c ∷ s) (suc n) mem = strncpy (dest + 1) s n (store mem dest c)

pub memmove : ℕ → ℕ → ℕ → (ℕ → ℕ) → ℕ → ℕ
memmove dest src n mem =
    if leb dest src then copy_forward dest src n mem else copy_backward dest src n mem
