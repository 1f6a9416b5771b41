-- ===== src/Base/Texts.antt =====
-- `strings.Split` by one character, over texts as lists of characters.
use Prim.Native.Char.{Char, code}
use Prim.Native.Nat.{ℕ, ◌+◌, ◌%◌, ◌/◌}
use Prim.Native.String.{String, ◌++◌ as text_append, char_at, len, slice}
use mathlib.Core.Path.{◌≡◌, refl, sym, ap, ◌∙◌}
use mathlib.Core.Bool.{Bool, false}
use mathlib.Core.List.{List, [], ◌∷◌}
use native.Mathlib.Omega.{arith}
use text.Mathlib.TextLemmas.{nil-append, cons-append}
use text.Mathlib.TextPositions.{len-append, slice-append_right}
use ion_cluster.Base.Tests.{◌==◌, ltb, if◌then◌else◌}

-- The character is put in front of the first part.
abbrev pub onto_first : Char → List String → List String
onto_first c [] = String.◌∷◌ c String.[] ∷ []
onto_first c (part ∷ parts) = String.◌∷◌ c part ∷ parts

abbrev pub is_char : Char → Char → Bool
is_char a b = code a == code b

-- `strings.Split(s, sep)` for a separator of one character.
abbrev pub split_at : Char → String → List String
split_at sep String.[] = String.[] ∷ []
split_at sep (String.◌∷◌ c s) =
    let parts = split_at sep s in if is_char c sep then String.[] ∷ parts else onto_first c parts

-- The separator does not occur.
abbrev pub Lacks : Char → String → Type 0
Lacks sep String.[] = Unit
Lacks sep (String.◌∷◌ c s) = (is_char c sep ≡ false) × Lacks sep s

-- The first part is the text up to the first separator.
pub split_at-first :
    (sep : Char) (s rest : String)
    → Lacks sep s
    → split_at sep (text_append s (String.◌∷◌ sep rest)) ≡ s ∷ split_at sep rest
split_at-first sep String.[] rest h =
    let no_parts : split_at sep (String.◌∷◌ sep rest) ≡ String.[] ∷ split_at sep rest =
      ground arith in
    ap (split_at sep) (nil-append (String.◌∷◌ sep rest)) ∙ no_parts
split_at-first sep (String.◌∷◌ c s) rest h =
    rw (cons-append c s (String.◌∷◌ sep rest), h.0, split_at-first sep s rest h.1)

pub split_at-none : (sep : Char) (s : String) → Lacks sep s → split_at sep s ≡ s ∷ []
split_at-none sep String.[] h = refl
split_at-none sep (String.◌∷◌ c s) h = rw (h.0, split_at-none sep s h.1)

-- A common front can be left away.
pub append-cancel_left : (s t u : String) → text_append s t ≡ text_append s u → t ≡ u
append-cancel_left s t u e =
    sym (slice-append_right s t)
    ∙ ap (λ v. slice v (len s) (len s + len t)) e
    ∙ ap (λ n. slice (text_append s u) (len s) (len s + n))
        (omega (arith, len-append s t, len-append s u, ap len e))
    ∙ slice-append_right s u

-- The texts in a row, as `fmt.Sprintf` with `%s` puts them.
abbrev pub sprintf : List String → String
sprintf [] = String.[]
sprintf (part ∷ parts) = text_append part (sprintf parts)

-- The letters that have an ASCII letter in lower case.
abbrev lower_case : List (Char × Char)
lower_case =
    ("A", "a")
    ∷ ("B", "b")
    ∷ ("C", "c")
    ∷ ("D", "d")
    ∷ ("E", "e")
    ∷ ("F", "f")
    ∷ ("G", "g")
    ∷ ("H", "h")
    ∷ ("I", "i")
    ∷ ("J", "j")
    ∷ ("K", "k")
    ∷ ("L", "l")
    ∷ ("M", "m")
    ∷ ("N", "n")
    ∷ ("O", "o")
    ∷ ("P", "p")
    ∷ ("Q", "q")
    ∷ ("R", "r")
    ∷ ("S", "s")
    ∷ ("T", "t")
    ∷ ("U", "u")
    ∷ ("V", "v")
    ∷ ("W", "w")
    ∷ ("X", "x")
    ∷ ("Y", "y")
    ∷ ("Z", "z")
    ∷ ("İ", "i")
    ∷ ("K", "k")
    ∷ []

abbrev lower_in : List (Char × Char) → Char → Char
lower_in [] c = c
lower_in ((upper, lower) ∷ rest) c =
    let other = lower_in rest c in if is_char c upper then lower else other

-- `strings.ToLower`, for comparisons with ASCII texts: letters whose lower case is not ASCII stay.
abbrev pub to_lower : String → String
to_lower String.[] = String.[]
to_lower (String.◌∷◌ c s) = String.◌∷◌ (lower_in lower_case c) (to_lower s)

abbrev digit : ℕ → String
digit n = String.◌∷◌ (char_at "0123456789" n) String.[]

-- `fmt.Sprintf("%d", n)` for a number of one byte.
abbrev pub decimal : ℕ → String
decimal n =
    let ones = digit (n % 10) in
    let tens = digit (n / 10 % 10) in
    let hundreds = digit (n / 100) in
    if ltb n 10
    then ones
    else (if ltb n 100 then text_append tens ones else text_append hundreds (text_append tens ones))
