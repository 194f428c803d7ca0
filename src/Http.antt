-- ===== src/Http.antt =====
-- src/xengine/http/httputil.cpp, class CHttpUtil: percent encoding, queries and status lines. Texts
-- are lists of bytes. A function that fails gives `none`; what it has written to its references by
-- then is left out, since the callers give up. isalnum of the C library is an argument.
pub mod Text
pub mod Percent
pub mod Status
pub mod Query
use Prim.Native.Nat.{bit_or}
use mathlib.Core.Option
use mamio.Base.{
  ℕ, zero, suc, ◌+◌, ◌-◌, ◌*◌, ◌/◌, ◌%◌, Bool, true, false, not, ◌&&◌, ◌||◌, List, [], ◌∷◌, ◌++◌,
  Option, none, some, leb, ltb, ◌==◌, if◌then◌else◌, take, get_or,
}
use mamio.Http.Text.{has_char, find_from, substr, drop, size_sub, same_text, cut, pieces}

abbrev pub hex_digits : List ℕ
hex_digits =
    b'0' ∷ b'1' ∷ b'2' ∷ b'3' ∷ b'4' ∷ b'5' ∷ b'6' ∷ b'7' ∷ b'8' ∷ b'9' ∷ b'A' ∷ b'B' ∷ b'C' ∷ b'D'
    ∷ b'E' ∷ b'F' ∷ []

abbrev pub unreserved : List ℕ
unreserved = b'-' ∷ b'_' ∷ b'.' ∷ b'~' ∷ []

-- Whether PercentEncode writes the character itself.
abbrev pub is_plain : (ℕ → Bool) → List ℕ → ℕ → Bool
is_plain is_alnum resv_ext c = is_alnum c || has_char c unreserved || has_char c resv_ext

unfoldable pub encode_char : (ℕ → Bool) → List ℕ → ℕ → List ℕ
encode_char is_alnum resv_ext c =
    if is_plain is_alnum resv_ext c
    then c ∷ []
    else if c == b' '
    then b'+' ∷ []
    else b'%' ∷ get_or hex_digits (c / 16) 0 ∷ get_or hex_digits (c % 16) 0 ∷ []

unfoldable pub percent_encode : (ℕ → Bool) → List ℕ → List ℕ → List ℕ
percent_encode is_alnum resv_ext [] = []
percent_encode is_alnum resv_ext (c ∷ s) =
    encode_char is_alnum resv_ext c ++ percent_encode is_alnum resv_ext s

-- FROMHEX; `none` is -1. A decimal digit gives its character code.
unfoldable pub from_hex : ℕ → Option ℕ
from_hex c =
    if leb b'0' c && leb c b'9'
    then some c
    else if leb b'a' c && leb c b'f'
    then some (c - b'a' + 10)
    else if leb b'A' c && leb c b'F'
    then some (c - b'A' + 10)
    else none

-- (char)((h << 4) | l)
unfoldable pub hex_pair : ℕ → ℕ → Option ℕ
hex_pair x y = elim (from_hex x) [
  | none ↦ none
  | some h ↦ Option.map (λ l. bit_or (h * 16) l % 256) (from_hex y)
]

abbrev pub put_char : Option ℕ → Option (List ℕ) → Option (List ℕ)
put_char none rest = none
put_char (some c) rest = Option.map (λ s. c ∷ s) rest

unfoldable pub percent_decode : List ℕ → Option (List ℕ)
percent_decode [] = some []
percent_decode (c ∷ []) = if c == b'%' then none else some ((if c == b'+' then b' ' else c) ∷ [])
percent_decode (c ∷ x ∷ []) =
    let rest = percent_decode (x ∷ []) in
    if c == b'%' then none else put_char (some (if c == b'+' then b' ' else c)) rest
percent_decode (c ∷ x ∷ y ∷ s) =
    let skip = put_char (hex_pair x y) (percent_decode s) in
    let rest = percent_decode (x ∷ y ∷ s) in
    if c == b'%' then skip else put_char (some (if c == b'+' then b' ' else c)) rest

-- What ParseStatusLine stores under "version", "status" and "statusmsg".
pub record StatusLine : Type 0 where
  pub version : List ℕ
  pub status : List ℕ
  pub status_msg : List ℕ

abbrev pub http_slash : List ℕ
http_slash = b'H' ∷ b'T' ∷ b'T' ∷ b'P' ∷ b'/' ∷ []

-- The second search for a blank starts at the front of the line again.
unfoldable pub parse_status_line : List ℕ → Option StatusLine
parse_status_line line =
    if not (same_text (substr line 0 5) http_slash) then none else elim (find_from b' ' 5 line) [
      | none ↦ none
      | some sp ↦ elim (find_from b' ' 0 line) [
        | none ↦ none
        | some sp' ↦ some (record {
          version = substr line 5 (size_sub sp 5);
          status = substr line (sp + 1) (size_sub sp' (sp + 1));
          status_msg = drop (sp' + 1) line;
        })
      ]
    ]

abbrev pub decode_pair : List ℕ × Option (List ℕ) → Option (List ℕ × List ℕ)
decode_pair (key, none) = Option.map (λ k. (k, [])) (percent_decode key)
decode_pair (key, some value) = elim (percent_decode key) [
  | none ↦ none
  | some k ↦ Option.map (λ v. (k, v)) (percent_decode value)
]

-- ParseEncodedPair: the key, and the value, which is empty if there is no '='.
unfoldable pub parse_encoded_pair : List ℕ → Option (List ℕ × List ℕ)
parse_encoded_pair [] = none
parse_encoded_pair (c ∷ s) = decode_pair (cut b'=' (c ∷ s))

-- The assignments that ParseRequestQuery makes to its map, in their order.
unfoldable pub parse_pairs : List (List ℕ) → Option (List (List ℕ × List ℕ))
parse_pairs [] = some []
parse_pairs (p ∷ ps) = elim (parse_encoded_pair p) [
  | none ↦ none
  | some kv ↦ Option.map (λ rest. kv ∷ rest) (parse_pairs ps)
]

unfoldable pub parse_request_query : List ℕ → Option (List (List ℕ × List ℕ))
parse_request_query query = parse_pairs (pieces b'&' query)
