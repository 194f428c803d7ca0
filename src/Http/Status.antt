-- ===== src/Http/Status.antt =====
-- What ParseStatusLine stores.
use mathlib.Core.Option
use mamio.Base.{
  ℕ, zero, suc, ◌+◌, ◌-◌, ◌^◌, ◌<◌, ◌≤◌, ◌≡◌, refl, ap, sym, ◌∙◌, true, false, List, [], ◌∷◌, some,
  take, arith, length, inl, inr, Bool-cases, Option-cases,
}
use mamio.Http.Text.{has_char, find_char, find_from, substr, drop, size_sub, same_text}
use mamio.Http.{StatusLine, http_slash, parse_status_line}

same_text-eq : (xs ys : List ℕ) → same_text xs ys ≡ true → xs ≡ ys
unfolding same_text
same_text-eq [] [] h = refl
same_text-eq [] (y ∷ ys) h = cc
same_text-eq (x ∷ xs) [] h = cc
same_text-eq (x ∷ xs) (y ∷ ys) h = ground (arith, same_text-eq xs ys)

take-all : (n : ℕ) (s : List ℕ) → length s ≤ n → take n s ≡ s
take-all zero [] h = refl
take-all zero (x ∷ s) h = absurd (omega arith)
take-all (suc n) [] h = refl
take-all (suc n) (x ∷ s) h = ap (λ t. x ∷ t) (take-all n s (omega arith))

length-drop : (n : ℕ) (s : List ℕ) → length (drop n s) ≤ length s
unfolding drop
length-drop zero s = omega arith
length-drop (suc n) [] = omega arith
length-drop (suc n) (x ∷ s) = omega (arith, length-drop n s)

find_skip :
    (c n : ℕ) (s : List ℕ)
    → has_char c (take n s) ≡ false
    → find_char c s ≡ Option.map (λ i. i + n) (find_char c (drop n s))
unfolding has_char find_char drop
find_skip c zero s h = elim (Option-cases (find_char c s)) [
  | inl e ↦ ground (arith, e)
  | inr (i, e) ↦ ground (arith, e)
]
find_skip c (suc n) [] h = refl
find_skip c (suc n) (x ∷ s) h = elim (Option-cases (find_char c (drop n s))) [
  | inl e ↦ ground (arith, e, find_skip c n s)
  | inr (i, e) ↦ ground (arith, e, find_skip c n s)
]

find_zero : (s : List ℕ) → find_from b' ' 0 s ≡ find_char b' ' s
unfolding find_from drop has_char
find_zero s = sym (find_skip b' ' 0 s refl)

-- Nothing of "HTTP/" is a blank, so both searches find the same one.
find_blank :
    (line : List ℕ)
    → same_text (substr line 0 5) http_slash ≡ true
    → find_from b' ' 0 line ≡ find_from b' ' 5 line
unfolding find_from substr drop has_char
find_blank line h =
    let e : take 5 line ≡ http_slash = same_text-eq (take 5 line) http_slash h in
    let none_there : has_char b' ' (take 5 line) ≡ false = rw e refl in
    find_zero line ∙ find_skip b' ' 5 line none_there

whole :
    (line : List ℕ) (sp : ℕ)
    → length line < 2 ^ 64
    → substr line (sp + 1) (size_sub sp (sp + 1)) ≡ drop (sp + 1) line
unfolding substr
whole line sp h =
    let e : size_sub sp (sp + 1) ≡ 2 ^ 64 - 1 = omega arith in
    rw e (take-all (2 ^ 64 - 1) (drop (sp + 1) line) (omega (arith, length-drop (sp + 1) line)))

-- ParseStatusLine never tells the status code from its message: what it stores as either is all that
-- stands behind the first blank of the line, for a line that is shorter than 2 ^ 64.
pub parse_status_line_same :
    (line : List ℕ) (r : StatusLine)
    → length line < 2 ^ 64
    → parse_status_line line ≡ some r
    → (sp : ℕ) × (find_char b' ' line ≡ some sp)
      × (r.status ≡ drop (sp + 1) line)
      × (r.status_msg ≡ drop (sp + 1) line)
unfolding parse_status_line
parse_status_line_same line r h e = elim (Bool-cases (same_text (substr line 0 5) http_slash)) [
  | inl http ↦ elim (Option-cases (find_from b' ' 5 line)) [
    | inl missing ↦ absurd (ground arith)
    | inr (sp, found) ↦
        let front : find_from b' ' 0 line ≡ some sp = find_blank line http ∙ found in
        (
          sp,
          sym (find_zero line) ∙ front,
          ground (arith, front, whole line sp h),
          ground (arith, front),
        )
  ]
  | inr other ↦ absurd (ground arith)
]
