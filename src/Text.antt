-- ===== src/Text.antt =====
-- C strings: the bytes before the terminating zero. strcmp, strchr's use, and strtol of base 10.
use klee_testfs.Common.{
  ℕ, ◌+◌, ◌-◌, ◌*◌, ◌^◌, Bool, true, false, ◌&&◌, ◌||◌, Option, none, some, [], ◌∷◌, ℤ, pos, minus,
  ltb, leb, ◌==◌, if◌then◌else◌,
}
use klee_testfs.Bytes.{Bytes}
use Prim.Native.String.{String}
use Prim.Native.Char.{code}

-- The bytes of a literal of the source, which is ASCII.
abbrev pub codes : String → Bytes
codes String.[] = []
codes (String.◌∷◌ c s) = code c ∷ codes s

-- The string in a buffer; `none` where no zero ends it, and reading on is undefined behaviour.
unfoldable pub c_string : Bytes → Option Bytes
c_string [] = none
c_string (b ∷ bs) =
    let rest = c_string bs in
    if b == 0 then some [] else elim rest [ none ↦ none | some s ↦ some (b ∷ s) ]

-- strcmp(s, t) == 0
unfoldable pub same_string : Bytes → Bytes → Bool
same_string [] [] = true
same_string [] (c ∷ t) = false
same_string (b ∷ s) [] = false
same_string (b ∷ s) (c ∷ t) = let rest = same_string s t in if b == c then rest else false

-- The first index of `c`.
unfoldable pub index_of : ℕ → Bytes → Option ℕ
index_of c [] = none
index_of c (b ∷ bs) =
    let rest = index_of c bs in
    if b == c then some 0 else elim rest [ none ↦ none | some i ↦ some (i + 1) ]

-- The last index of `c`.
unfoldable pub last_index_of : ℕ → Bytes → Option ℕ
last_index_of c [] = none
last_index_of c (b ∷ bs) =
    let rest = last_index_of c bs in
    elim rest [ none ↦ if b == c then some 0 else none | some i ↦ some (i + 1) ]

unfoldable pub ends_with : ℕ → Bytes → Bool
ends_with c [] = false
ends_with c (b ∷ []) = b == c
ends_with c (b ∷ d ∷ bs) = ends_with c (d ∷ bs)

abbrev pub is_space : ℕ → Bool
is_space c = (leb 9 c && leb c 13) || (c == 32)

unfoldable pub skip_space : Bytes → Bytes
skip_space [] = []
skip_space (b ∷ bs) = let rest = skip_space bs in if is_space b then rest else b ∷ bs

-- Digits to the end of the string; `none` at any other byte.
unfoldable pub digits_from : ℕ → Bytes → Option ℕ
digits_from n [] = some n
digits_from n (b ∷ bs) =
    let rest = digits_from (n * 10 + (b - b'0')) bs in
    if leb b'0' b && leb b b'9' then rest else none

-- At least one digit.
unfoldable pub number : Bytes → Option ℕ
number [] = none
number (b ∷ bs) = digits_from 0 (b ∷ bs)

-- A long is clamped to its range.
abbrev pub clamp_pos : ℕ → ℤ
clamp_pos n = pos (if ltb n (2 ^ 63) then n else 2 ^ 63 - 1)

abbrev pub clamp_neg : ℕ → ℤ
clamp_neg n = minus (if leb n (2 ^ 63) then n else 2 ^ 63)

unfoldable pub signed_number : Bytes → Option ℤ
signed_number [] = none
signed_number (b ∷ bs) =
    if b == b'-'
    then elim (number bs) [ none ↦ none | some n ↦ some (clamp_neg n) ]
    else elim (number (if b == b'+' then bs else b ∷ bs)) [
      | none ↦ none
      | some n ↦ some (clamp_pos n)
    ]

-- strtol(s, &temp, 10) where *temp == '\0' afterwards: the whole string is a number, or is empty.
unfoldable pub strtol : Bytes → Option ℤ
strtol [] = some (pos 0)
strtol (b ∷ bs) = signed_number (skip_space (b ∷ bs))

-- strcspn of one more delimiter: the bytes up to the first of them, and those behind it, where strtok
-- goes on.
unfoldable pub span_token : (ℕ → Bool) → Bytes → Bytes × Bytes
span_token is_delim [] = ([], [])
span_token is_delim (b ∷ bs) =
    let (token, rest) = span_token is_delim bs in if is_delim b then ([], bs) else (b ∷ token, rest)

unfoldable pub skip_delims : (ℕ → Bool) → Bytes → Bytes
skip_delims is_delim [] = []
skip_delims is_delim (b ∷ bs) =
    let rest = skip_delims is_delim bs in if is_delim b then rest else b ∷ bs

-- strtok: the next token and what is left of the string.
unfoldable pub strtok : (ℕ → Bool) → Bytes → Option (Bytes × Bytes)
strtok is_delim bs = elim (skip_delims is_delim bs) [
  | [] ↦ none
  | b ∷ rest ↦ some (span_token is_delim (b ∷ rest))
]

-- The delimiters " \t\n" and "\n".
abbrev pub is_blank : ℕ → Bool
is_blank b = (b == 32) || ((b == 9) || (b == 10))

abbrev pub is_newline : ℕ → Bool
is_newline b = b == 10
