-- ===== src/Text/Tests.antt =====
-- Strings of src/libc/string.c on concrete inputs, and the theorems at such inputs.
use boss.Prelude.{ℕ, ◌≡◌, ◌↔◌, refl, List, [], ◌∷◌, map, pos, some, ◌-ℤ◌, arith}
use boss.Text.{strcmp, strcasecmp, diff_by, strncmp, ndiff_by, strrchr, tolower, memmove}
use boss.Text.Compare.{strcmp-zero_iff}
use boss.Text.Move.{moved, memmove-moved}

abbrev upper : List ℕ
upper = b'A' ∷ b'b' ∷ []

abbrev lower : List ℕ
lower = b'a' ∷ b'b' ∷ []

abbrev other : List ℕ
other = b'a' ∷ b'c' ∷ []

case_matters : strcmp lower upper ≡ pos 32
unfolding strcmp diff_by ◌-ℤ◌
case_matters = refl

last_of : strrchr (b'.' ∷ b'x' ∷ b'.' ∷ []) b'.' ≡ some (b'.' ∷ [])
unfolding strrchr
last_of = refl

last_byte_not_seen : strncmp lower other 2 ≡ pos 0
unfolding strncmp ndiff_by
last_byte_not_seen = refl

strcmp-zero_iff_example :
    ((strcmp lower upper ≡ pos 0) ↔ (lower ≡ upper))
    × ((strcasecmp lower upper ≡ pos 0) ↔ (map tolower lower ≡ map tolower upper))
strcmp-zero_iff_example = strcmp-zero_iff lower upper (omega arith) (omega arith)

-- Three bytes moved up by one.
memmove-moved_example : memmove 11 10 3 (λ a. a) 12 ≡ moved 11 10 3 (λ a. a) 12
memmove-moved_example = memmove-moved 11 10 3 (λ a. a) 12
