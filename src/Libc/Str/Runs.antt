-- ===== src/Libc/Str/Runs.antt =====
-- Runs of the functions of libc/src/string/str.c that no theorem is about.
use lumin.Prelude.{ℕ, ◌≡◌, refl, Option, some, [], ◌∷◌, leb, if◌then◌else◌, get_or}
use lumin.Prelude.Int.{pos}
use lumin.Libc.Mem.{Memory}
use lumin.Libc.Str.{strncmp, strncpy, strncat, strchr, strrchr, strpbrk}

-- "abab", NUL, "ba", NUL from address 0 on, and NULs.
abbrev two_strings : Memory
two_strings a = get_or (97 ∷ 98 ∷ 97 ∷ 98 ∷ 0 ∷ 98 ∷ 97 ∷ 0 ∷ []) a 0

strncmp_prefix : strncmp 0 2 2 two_strings ≡ pos 0
unfolding strncmp
strncmp_prefix = refl

strncpy_pads : strncpy 16 5 4 (λ a. if leb a 8 then two_strings a else 7) 19 ≡ 0
unfolding strncpy
strncpy_pads = refl

-- The byte at an address after a call.
abbrev byte_after : Option Memory → ℕ → ℕ
byte_after (some m) a = m a
byte_after _ a = 256

strncat_ends : byte_after (strncat 10 5 0 1 two_strings) 8 ≡ 0
unfolding strncat
strncat_ends = refl

strchr_second : strchr 10 0 98 two_strings ≡ some 1
unfolding strchr
strchr_second = refl

strrchr_last : strrchr 10 0 98 two_strings ≡ some 3
unfolding strrchr
strrchr_last = refl

strpbrk_first : strpbrk 10 0 5 two_strings ≡ some 0
unfolding strpbrk
strpbrk_first = refl
