-- ===== src/Examples/Text.antt =====
-- src/crypto/base32.cpp and crc24q.cpp on concrete bytes.
use mamio.Base.{ℕ, ◌≡◌, refl, List, [], ◌∷◌, ◌++◌, map, some, arith}
use mamio.Crc24q.{crc24q, crc24q_loop, crc24q_step}
use mamio.Crc24q.Append.{crc_bytes, crc24q-append}
use mamio.Base32.{base32_encode, base32_decode, decode_loop, decode_index, digit, digit_sum}
use mamio.Base32.RoundTrip.{base32_decode-base32_encode}
use mamio.Base32.Digits.{as_digit, base32_decode_digits}

abbrev message : List ℕ
message =
    1 ∷ 2 ∷ 3 ∷ 4 ∷ 5 ∷ 6 ∷ 7 ∷ 8 ∷ 9 ∷ 10 ∷ 11 ∷ 12 ∷ 13 ∷ 14 ∷ 15 ∷ 16 ∷ 255 ∷ 254 ∷ 253 ∷ 252
    ∷ 251 ∷ 250 ∷ 249 ∷ 248 ∷ 247 ∷ 246 ∷ 245 ∷ 244 ∷ 243 ∷ 242 ∷ 241 ∷ 240 ∷ []

-- The checksum of the digits "123456789".
crc24q_test : crc24q (0x31 ∷ 0x32 ∷ 0x33 ∷ 0x34 ∷ 0x35 ∷ 0x36 ∷ 0x37 ∷ 0x38 ∷ 0x39 ∷ []) ≡ 0xcde703
unfolding crc24q crc24q_loop crc24q_step
crc24q_test = refl

crc24q-append_example : crc24q (message ++ crc_bytes (crc24q message)) ≡ 0
crc24q-append_example = crc24q-append message

base32_decode-base32_encode_example : base32_decode (base32_encode message) ≡ some message
base32_decode-base32_encode_example = base32_decode-base32_encode message refl (omega arith)

abbrev all_set : List ℕ
all_set =
    255 ∷ 255 ∷ 255 ∷ 255 ∷ 255 ∷ 255 ∷ 255 ∷ 255 ∷ 255 ∷ 255 ∷ 255 ∷ 255 ∷ 255 ∷ 255 ∷ 255 ∷ 255
    ∷ 255 ∷ 255 ∷ 255 ∷ 255 ∷ 255 ∷ 255 ∷ 255 ∷ 255 ∷ 255 ∷ 255 ∷ 255 ∷ 255 ∷ 255 ∷ 255 ∷ 255 ∷ 255
    ∷ []

-- The text of these bytes with two characters that are no digits in the place of a 'z' each.
abbrev spoilt : List ℕ
spoilt =
    b'!' ∷ b'?' ∷ b'z' ∷ b'z' ∷ b'z' ∷ b'z' ∷ b'z' ∷ b'z' ∷ b'z' ∷ b'z' ∷ b'z' ∷ b'z' ∷ b'z' ∷ b'z'
    ∷ b'z' ∷ b'z' ∷ b'z' ∷ b'z' ∷ b'z' ∷ b'z' ∷ b'z' ∷ b'z' ∷ b'z' ∷ b'z' ∷ b'z' ∷ b'z' ∷ b'z'
    ∷ b'z' ∷ b'z' ∷ b'z' ∷ b'z' ∷ b'z' ∷ b'z' ∷ b'z' ∷ b'z' ∷ b'z' ∷ b'z' ∷ b'z' ∷ b'z' ∷ b'z'
    ∷ b'z' ∷ b'z' ∷ b'z' ∷ b'z' ∷ b'z' ∷ b'z' ∷ b'z' ∷ b'z' ∷ b'z' ∷ b'z' ∷ b'z' ∷ b'n' ∷ b'y'
    ∷ b'0' ∷ b'd' ∷ b'1' ∷ []

spoilt_test : base32_decode spoilt ≡ some all_set
unfolding base32_decode decode_loop decode_index digit digit_sum crc24q crc24q_loop crc24q_step
spoilt_test = refl

base32_decode_digits_example : base32_decode (map as_digit spoilt) ≡ base32_decode spoilt
base32_decode_digits_example = base32_decode_digits spoilt (
  omega arith,
  (
    omega arith,
    (
      omega arith,
      (
        omega arith,
        (
          omega arith,
          (
            omega arith,
            (
              omega arith,
              (
                omega arith,
                (
                  omega arith,
                  (
                    omega arith,
                    (
                      omega arith,
                      (
                        omega arith,
                        (
                          omega arith,
                          (
                            omega arith,
                            (
                              omega arith,
                              (
                                omega arith,
                                (
                                  omega arith,
                                  (
                                    omega arith,
                                    (
                                      omega arith,
                                      (
                                        omega arith,
                                        (
                                          omega arith,
                                          (
                                            omega arith,
                                            (
                                              omega arith,
                                              (
                                                omega arith,
                                                (
                                                  omega arith,
                                                  (
                                                    omega arith,
                                                    (
                                                      omega arith,
                                                      (
                                                        omega arith,
                                                        (
                                                          omega arith,
                                                          (
                                                            omega arith,
                                                            (
                                                            omega arith,
                                                            (
                                                            omega arith,
                                                            (
                                                            omega arith,
                                                            (
                                                            omega arith,
                                                            (
                                                            omega arith,
                                                            (
                                                            omega arith,
                                                            (
                                                            omega arith,
                                                            (
                                                            omega arith,
                                                            (
                                                            omega arith,
                                                            (
                                                            omega arith,
                                                            (
                                                            omega arith,
                                                            (
                                                            omega arith,
                                                            (
                                                            omega arith,
                                                            (
                                                            omega arith,
                                                            (
                                                            omega arith,
                                                            (
                                                            omega arith,
                                                            (
                                                            omega arith,
                                                            (
                                                            omega arith,
                                                            (
                                                            omega arith,
                                                            (
                                                            omega arith,
                                                            (
                                                            omega arith,
                                                            (
                                                            omega arith,
                                                            (
                                                            omega arith,
                                                            (
                                                            omega arith,
                                                            (omega arith, (omega arith, tt)),
                                                            ),
                                                            ),
                                                            ),
                                                            ),
                                                            ),
                                                            ),
                                                            ),
                                                            ),
                                                            ),
                                                            ),
                                                            ),
                                                            ),
                                                            ),
                                                            ),
                                                            ),
                                                            ),
                                                            ),
                                                            ),
                                                            ),
                                                            ),
                                                            ),
                                                            ),
                                                            ),
                                                            ),
                                                          ),
                                                        ),
                                                      ),
                                                    ),
                                                  ),
                                                ),
                                              ),
                                            ),
                                          ),
                                        ),
                                      ),
                                    ),
                                  ),
                                ),
                              ),
                            ),
                          ),
                        ),
                      ),
                    ),
                  ),
                ),
              ),
            ),
          ),
        ),
      ),
    ),
  ),
)
