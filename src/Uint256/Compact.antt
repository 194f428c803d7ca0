-- ===== src/Uint256/Compact.antt =====
-- SetCompact and GetCompact of uint256: a number as a 32-bit word, with a byte for its size in bytes
-- and three for its highest digits, of which the highest bit is a sign.
pub mod Parts
pub mod Digits
pub mod Monotone
use Prim.Native.Nat.{bit_or}
use mamio.Base.{
  ℕ, ◌+◌, ◌-◌, ◌*◌, ◌/◌, ◌%◌, ◌^◌, Bool, true, false, not, ◌&&◌, ◌||◌, List, [], ◌∷◌, ltb, leb,
  ◌==◌, if◌then◌else◌,
}
use mamio.Uint256.{set_uint64, bits}
use mamio.Uint256.Shift.{shift_left, shift_right}

-- nSize, and nWord before and after it is shifted.
abbrev pub size_of : ℕ → ℕ
size_of compact = compact / 2 ^ 24

abbrev pub word_of : ℕ → ℕ
word_of compact =
    let word = compact % 2 ^ 23 in
    if leb (size_of compact) 3 then word / 2 ^ (8 * (3 - size_of compact)) else word

-- SetCompact: the number.
unfoldable pub set_compact : ℕ → List ℕ → List ℕ
set_compact compact xs =
    if leb (size_of compact) 3
    then set_uint64 (word_of compact) xs
    else shift_left (8 * (size_of compact - 3)) (set_uint64 (word_of compact) xs)

-- *pfNegative and *pfOverflow.
unfoldable pub is_negative : ℕ → Bool
is_negative compact = not (word_of compact == 0) && compact / 2 ^ 23 % 2 == 1

unfoldable pub is_overflow : ℕ → Bool
is_overflow compact =
    let size = size_of compact in
    let word = word_of compact in
    not (word == 0)
    && (ltb 34 size || ((ltb 0xff word && ltb 33 size) || (ltb 0xffff word && ltb 32 size)))

-- GetLow64, for a width of at least two words.
abbrev pub get_low64 : List ℕ → ℕ
get_low64 [] = 0
get_low64 (x ∷ []) = x
get_low64 (x ∷ y ∷ xs) = bit_or x (y * 2 ^ 32)

-- nSize and nCompact before the sign bit is looked at.
abbrev pub byte_size : List ℕ → ℕ
byte_size xs = (bits xs + 7) / 8

unfoldable pub digits_of : List ℕ → ℕ
digits_of xs =
    let size = byte_size xs in
    if leb size 3
    then get_low64 xs * 2 ^ (8 * (3 - size)) % 2 ^ 64 % 2 ^ 32
    else get_low64 (shift_right (8 * (size - 3)) xs) % 2 ^ 32

-- GetCompact. Its assertions hold for a number of at most 252 bytes.
unfoldable pub get_compact : Bool → List ℕ → ℕ
get_compact negative xs =
    let size = byte_size xs in
    let compact = digits_of xs in
    let signed = compact / 2 ^ 23 % 2 == 1 in
    let word = if signed then compact / 2 ^ 8 else compact in
    let whole = bit_or word ((if signed then size + 1 else size) * 2 ^ 24) in
    bit_or whole (if negative && not (whole % 2 ^ 23 == 0) then 0x800000 else 0)
