-- ===== src/Crc24q/Append.antt =====
-- A message followed by its checksum has checksum 0.
use mamio.Base.{ℕ, ◌*◌, ◌/◌, ◌%◌, ◌^◌, ◌≡◌, refl, List, [], ◌∷◌, ◌++◌, arith}
use mamio.Base.Bytes.{bit_xor_self, bit_xor-zero}
use mamio.Crc24q.{crc24q_step, crc24q_loop, crc24q}

-- The three bytes of a checksum, the highest first.
abbrev pub crc_bytes : ℕ → List ℕ
crc_bytes crc = crc / 2 ^ 16 % 256 ∷ crc / 2 ^ 8 % 256 ∷ crc % 256 ∷ []

pub crc24q_loop-append :
    (crc : ℕ) (xs ys : List ℕ) → crc24q_loop crc (xs ++ ys) ≡ crc24q_loop (crc24q_loop crc xs) ys
unfolding crc24q_loop
crc24q_loop-append crc [] ys = refl
crc24q_loop-append crc (x ∷ xs) ys = crc24q_loop-append (crc24q_step crc x) xs ys

-- The byte that the register holds at its top shifts it and nothing else.
step_top : (crc : ℕ) → crc24q_step crc (crc / 2 ^ 16 % 256) ≡ crc * 2 ^ 8 % 2 ^ 32
unfolding crc24q_step
step_top crc =
    rw (bit_xor_self (crc / 2 ^ 16 % 256) (omega arith)) (bit_xor-zero (crc * 2 ^ 8 % 2 ^ 32))

step_eq : (crc byte : ℕ) → byte ≡ crc / 2 ^ 16 % 256 → crc24q_step crc byte ≡ crc * 2 ^ 8 % 2 ^ 32
step_eq crc byte e = rw e (step_top crc)

loop_top :
    (crc c2 c1 c0 : ℕ)
    → c2 ≡ crc / 2 ^ 16 % 256
    → c1 ≡ crc / 2 ^ 8 % 256
    → c0 ≡ crc % 256
    → crc24q_loop crc (c2 ∷ c1 ∷ c0 ∷ []) % 2 ^ 24 ≡ 0
unfolding crc24q_loop
loop_top crc c2 c1 c0 e2 e1 e0 =
    let s2 = step_eq crc c2 e2 in
    let s1 = step_eq (crc24q_step crc c2) c1 (omega arith) in
    let s0 = step_eq (crc24q_step (crc24q_step crc c2) c1) c0 (omega arith) in omega arith

-- The checksum of a message with the three bytes of its checksum behind it is 0.
pub crc24q-append : (bytes : List ℕ) → crc24q (bytes ++ crc_bytes (crc24q bytes)) ≡ 0
unfolding crc24q
crc24q-append bytes =
    rw (crc24q_loop-append 0 bytes (crc_bytes (crc24q bytes)))
      (loop_top (crc24q_loop 0 bytes) _ _ _ (omega arith) (omega arith) (omega arith))
