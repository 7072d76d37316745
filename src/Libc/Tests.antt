-- ===== src/Libc/Tests.antt =====
-- Runs of the functions of libc/src/string and libc/src/stdlib/strtol.c on small memories.
use lumin.Prelude.{ℕ, ◌≡◌, refl, some, List, [], ◌∷◌, arith, get_or}
use lumin.Libc.Mem.{Memory, memset, memmove}
use lumin.Libc.Mem.Copy.{copied, memmove-copied}
use lumin.Libc.Mem.Fill.{filled, memset-filled}
use lumin.Libc.Str.Strings.{IsStr}
use lumin.Libc.Strtol.{strtol}
use lumin.Libc.Strtol.Decimal.{clamped, strtol-clamped}

-- "abab", NUL, "ba", NUL from address 0 on, and NULs.
abbrev two_strings : Memory
two_strings a = get_or (97 ∷ 98 ∷ 97 ∷ 98 ∷ 0 ∷ 98 ∷ 97 ∷ 0 ∷ []) a 0

abbrev first_str : IsStr two_strings 0 (97 ∷ 98 ∷ 97 ∷ 98 ∷ [])
first_str = (refl, omega arith, (refl, omega arith, (refl, omega arith, (refl, omega arith, refl))))

abbrev second_str : IsStr two_strings 5 (98 ∷ 97 ∷ [])
second_str = (refl, omega arith, (refl, omega arith, refl))

abbrev first_bytes : List ℕ
first_bytes = 97 ∷ 98 ∷ 97 ∷ 98 ∷ []

abbrev second_bytes : List ℕ
second_bytes = 98 ∷ 97 ∷ []

-- One byte up, into the source itself.
memmove-copied_example : memmove 1 0 4 two_strings 4 ≡ copied 1 0 4 two_strings 4
memmove-copied_example = memmove-copied 1 0 4 two_strings 4

memset-filled_example : memset 3 0x141 20 two_strings 22 ≡ filled 3 65 20 two_strings 22
memset-filled_example = memset-filled 3 0x141 20 two_strings 22

-- "407".
abbrev number : Memory
number a = get_or (52 ∷ 48 ∷ 55 ∷ []) a 0

strtol-clamped_example : strtol 10 0 10 number ≡ some (clamped 407 3)
strtol-clamped_example =
    strtol-clamped 10 0 4 (0 ∷ 7 ∷ []) number
      (refl, omega arith, (refl, omega arith, (refl, omega arith, refl))) (omega arith)

-- Some twenty digits: ULONG_MAX with its last digit 6 instead of 5, and then a 0.
abbrev too_long : Memory
too_long a =
    get_or
      (49 ∷ 56 ∷ 52 ∷ 52 ∷ 54 ∷ 55 ∷ 52 ∷ 52 ∷ 48 ∷ 55 ∷ 51 ∷ 55 ∷ 48 ∷ 57 ∷ 53 ∷ 53 ∷ 49 ∷ 54 ∷ 49
        ∷ 54 ∷ 48 ∷ [])
      a 0

abbrev middle : List ℕ
middle = 8 ∷ 4 ∷ 4 ∷ 6 ∷ 7 ∷ 4 ∷ 4 ∷ 0 ∷ 7 ∷ 3 ∷ 7 ∷ 0 ∷ 9 ∷ 5 ∷ 5 ∷ 1 ∷ 6 ∷ 1 ∷ []
