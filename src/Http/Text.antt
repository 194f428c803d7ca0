-- ===== src/Http/Text.antt =====
-- What src/xengine/http/httputil.cpp uses of std::string, on lists of bytes.
use mathlib.Core.Option
use mamio.Base.{
  ℕ, zero, suc, ◌+◌, ◌-◌, ◌%◌, ◌^◌, Bool, true, false, ◌||◌, ◌&&◌, List, [], ◌∷◌, Option, none,
  some, ◌==◌, if◌then◌else◌, take,
}

unfoldable pub same_text : List ℕ → List ℕ → Bool
same_text [] [] = true
same_text (x ∷ xs) (y ∷ ys) = x == y && same_text xs ys
same_text _ _ = false

-- find(c) != npos
unfoldable pub has_char : ℕ → List ℕ → Bool
has_char c [] = false
has_char c (x ∷ xs) = x == c || has_char c xs

-- find(c); `none` is npos.
unfoldable pub find_char : ℕ → List ℕ → Option ℕ
find_char c [] = none
find_char c (x ∷ xs) = if x == c then some 0 else Option.map suc (find_char c xs)

-- substr(pos), for a `pos` within the string.
unfoldable pub drop : ℕ → List ℕ → List ℕ
drop zero s = s
drop (suc n) [] = []
drop (suc n) (x ∷ s) = drop n s

-- find(c, start)
unfoldable pub find_from : ℕ → ℕ → List ℕ → Option ℕ
find_from c start s = Option.map (λ i. i + start) (find_char c (drop start s))

-- substr(pos, len)
unfoldable pub substr : List ℕ → ℕ → ℕ → List ℕ
substr s pos len = take len (drop pos s)

-- The difference of two size_t.
abbrev pub size_sub : ℕ → ℕ → ℕ
size_sub a b = (a + 2 ^ 64 - b) % 2 ^ 64

-- The text before the first `c`, and the text behind it if there is one.
unfoldable pub cut : ℕ → List ℕ → List ℕ × Option (List ℕ)
cut c [] = ([], none)
cut c (x ∷ xs) =
    if x == c then ([], some xs) else (let (before, behind) = cut c xs in (x ∷ before, behind))

-- The pieces between the delimiters.
unfoldable pub pieces : ℕ → List ℕ → List (List ℕ)
pieces c [] = [] ∷ []
pieces c (x ∷ xs) =
    if x == c
    then [] ∷ pieces c xs
    else elim (pieces c xs) [ [] ↦ (x ∷ []) ∷ [] | p ∷ ps ↦ (x ∷ p) ∷ ps ]
