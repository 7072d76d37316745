-- ===== src/Libc/Str/Tokens/Runs.antt =====
-- Runs of `strtok_r`, `strcasecmp` and `strncasecmp` of libc/src/string/str.c.
use lumin.Prelude.{ℕ, ◌≡◌, refl, Option, none, some, [], ◌∷◌, get_or}
use lumin.Prelude.Int.{pos, sub_ℕ}
use lumin.Libc.Mem.{Memory}
use lumin.Libc.Str.Tokens.{Token, strtok_r, strcasecmp, strncasecmp}

-- ",aB,c", NUL, ",", NUL, "Ab", NUL from address 1 on.
abbrev words : Memory
words a = get_or (0 ∷ 44 ∷ 97 ∷ 66 ∷ 44 ∷ 99 ∷ 0 ∷ 44 ∷ 0 ∷ 65 ∷ 98 ∷ 0 ∷ []) a 0

-- The start of a token and the place where the next call goes on.
abbrev places : Option Token → Option (ℕ × ℕ)
places none = none
places (some t) = some (t.start, t.saveptr)

strtok_r_first : places (strtok_r 20 1 7 0 words) ≡ some (2, 5)
unfolding strtok_r
strtok_r_first = refl

strtok_r_last : places (strtok_r 20 0 7 5 words) ≡ some (5, 0)
unfolding strtok_r
strtok_r_last = refl

strcasecmp_less : strcasecmp 20 9 2 words ≡ some (sub_ℕ 0 44)
unfolding strcasecmp
strcasecmp_less = refl

strncasecmp_same : strncasecmp 9 2 2 words ≡ pos 0
unfolding strncasecmp
strncasecmp_same = refl
