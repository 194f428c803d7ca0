-- ===== src/Base/Keys.antt =====
-- What the ordered containers ask of a key: the order of `operator<`, and an equality that tells
-- two keys apart exactly when they differ.
use Prim.Native.Nat.{ℕ}
use mathlib.Core.Path.{◌≡◌}
use mathlib.Core.Logic.{◌↔◌}
use mathlib.Core.Bool.{Bool, true}
use mamio.Base.Tests.{ltb, ◌==◌, ==_iff}

pub record Key (K : Type 0) : Type 0 where
  pub before : K → K → Bool
  pub same : K → K → Bool
  pub same_iff : (a b : K) → (same a b ≡ true) ↔ (a ≡ b)

instance abbrev pub nat_key : Key ℕ
nat_key = record { before = ltb; same = ◌==◌; same_iff = ==_iff }
