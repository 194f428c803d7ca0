-- ===== src/Examples/Web.antt =====
-- src/xengine/http/httputil.cpp on concrete texts.
use mamio.Base.{ℕ, ◌+◌, ◌≡◌, Bool, ◌&&◌, ◌||◌, refl, List, [], ◌∷◌, map, some, arith, leb}
use mamio.Http.{percent_encode, percent_decode, from_hex, hex_pair, parse_status_line, StatusLine}
use mamio.Http.Text.{find_char, drop, same_text, substr, find_from, has_char}
use mamio.Http.Percent.{comes_back, percent_decode-percent_encode}
use mamio.Http.Status.{parse_status_line_same}

abbrev is_alnum : ℕ → Bool
is_alnum c = (leb b'0' c && leb c b'9') || (leb b'A' c && leb c b'Z') || (leb b'a' c && leb c b'z')

-- "a/b?", of which '?' ends in a letter digit.
abbrev text : List ℕ
text = b'a' ∷ b'/' ∷ b'b' ∷ b'?' ∷ []

-- "%20" is read as "0".
blank_test : percent_decode (b'%' ∷ b'2' ∷ b'0' ∷ []) ≡ some (b'0' ∷ [])
unfolding percent_decode hex_pair from_hex
blank_test = refl

percent_decode-percent_encode_example :
    percent_decode (percent_encode is_alnum [] text) ≡ some (map (comes_back is_alnum []) text)
unfolding has_char
percent_decode-percent_encode_example =
    percent_decode-percent_encode is_alnum [] text refl refl (omega arith)

-- "HTTP/1.1 200 OK"
abbrev line : List ℕ
line =
    b'H' ∷ b'T' ∷ b'T' ∷ b'P' ∷ b'/' ∷ b'1' ∷ b'.' ∷ b'1' ∷ b' ' ∷ b'2' ∷ b'0' ∷ b'0' ∷ b' ' ∷ b'O'
    ∷ b'K' ∷ []

abbrev behind : List ℕ
behind = b'2' ∷ b'0' ∷ b'0' ∷ b' ' ∷ b'O' ∷ b'K' ∷ []

abbrev parsed : StatusLine
parsed = record { version = b'1' ∷ b'.' ∷ b'1' ∷ []; status = behind; status_msg = behind }

line_test : parse_status_line line ≡ some parsed
unfolding parse_status_line same_text substr find_from find_char drop
line_test = refl

parse_status_line_same_example :
    (sp : ℕ) × (find_char b' ' line ≡ some sp)
    × (parsed.status ≡ drop (sp + 1) line)
    × (parsed.status_msg ≡ drop (sp + 1) line)
parse_status_line_same_example = parse_status_line_same line parsed (omega arith) line_test
