-- ===== src/Http/Query.antt =====
-- Which queries ParseRequestQuery refuses.
use mamio.Base.{
  ℕ, ◌≡◌, refl, ap, ◌∙◌, List, [], ◌∷◌, ◌++◌, none, ◌==◌, arith, Option-cases, Bool-cases, inl, inr,
}
use mamio.Http.Text.{pieces}
use mamio.Http.{parse_encoded_pair, parse_pairs, parse_request_query}

pieces_ne : (c : ℕ) (s : List ℕ) → (p : List ℕ) × (ps : List (List ℕ)) × (pieces c s ≡ p ∷ ps)
unfolding pieces
pieces_ne c [] = ([], [], refl)
pieces_ne c (x ∷ s) = elim (Bool-cases (x == c)) [
  | inl h ↦ ([], pieces c s, rw (h, pieces) refl)
  | inr h ↦ let (p, ps, e) = pieces_ne c s in (x ∷ p, ps, rw (h, pieces, e) refl)
]

pieces-append : (c : ℕ) (a b : List ℕ) → pieces c (a ++ (c ∷ b)) ≡ pieces c a ++ pieces c b
unfolding pieces
pieces-append c [] b = ground arith
pieces-append c (x ∷ a) b = let (p, ps, e) = pieces_ne c a in ground (arith, pieces-append c a b, e)

parse_pairs_empty : (xs ys : List (List ℕ)) → parse_pairs (xs ++ ([] ∷ ys)) ≡ none
unfolding parse_pairs parse_encoded_pair
parse_pairs_empty [] ys = refl
parse_pairs_empty (x ∷ xs) ys = elim (Option-cases (parse_encoded_pair x)) [
  | inl h ↦ rw (h, parse_pairs) refl
  | inr (kv, h) ↦ rw (h, parse_pairs, parse_pairs_empty xs ys) refl
]

-- A query with an empty pair is refused whatever else it holds: ParseRequestQuery fails when the
-- query ends in '&', and when two '&' stand side by side in it.
parse_request_query_empty :
    (a b : List ℕ)
    → (parse_request_query (a ++ (b'&' ∷ [])) ≡ none)
      × (parse_request_query (a ++ (b'&' ∷ b'&' ∷ b)) ≡ none)
unfolding parse_request_query pieces
parse_request_query_empty a b = (
  ap parse_pairs (pieces-append b'&' a []) ∙ parse_pairs_empty (pieces b'&' a) [],
  ap parse_pairs (pieces-append b'&' a (b'&' ∷ b))
      ∙ parse_pairs_empty (pieces b'&' a) (pieces b'&' b),
)
