-- ===== src/Bytes/Codec.antt =====
-- Words as bytes: `to_le_bytes`, `from_le_bytes`, `to_be_bytes` and `from_be_bytes`.
use mathlib.Core.List.{reverse, reverse-reverse}
use native.Mathlib.Nat.{pow-suc}
use blockchain_parity_db.Prelude.{
  ℕ, zero, suc, ◌+◌, ◌*◌, ◌/◌, ◌%◌, ◌^◌, ◌<◌, ◌≡◌, refl, ap, List, [], ◌∷◌, length, arith,
}

abbrev pub Bytes : Type 0
Bytes = List ℕ

abbrev pub IsByte : ℕ → Type 0
IsByte b = b < 256

-- `n.to_le_bytes()` of a word of `w` bytes
unfoldable pub to_le : ℕ → ℕ → Bytes
to_le zero n = []
to_le (suc w) n = (n % 256) ∷ to_le w (n / 256)

unfoldable pub from_le : Bytes → ℕ
from_le [] = 0
from_le (b ∷ bs) = b + 256 * from_le bs

unfoldable pub to_be : ℕ → ℕ → Bytes
to_be w n = reverse (to_le w n)

unfoldable pub from_be : Bytes → ℕ
from_be bs = from_le (reverse bs)

pub length-to_le : (w n : ℕ) → length (to_le w n) ≡ w
unfolding to_le
length-to_le zero n = refl
length-to_le (suc w) n = ap suc (length-to_le w (n / 256))

-- A word that fits is read back as it was written.
pub from_le-to_le : (w n : ℕ) → n < 256 ^ w → from_le (to_le w n) ≡ n
unfolding to_le from_le
from_le-to_le zero n h = omega arith
from_le-to_le (suc w) n h = omega (arith, from_le-to_le w (n / 256) (omega (arith, pow-suc 256 w)))

pub from_be-to_be : (w n : ℕ) → n < 256 ^ w → from_be (to_be w n) ≡ n
unfolding to_be from_be
from_be-to_be w n h = rw (reverse-reverse (to_le w n)) (from_le-to_le w n h)
