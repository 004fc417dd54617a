-- ===== src/Text/Decimal.antt =====
-- The decimal text of a number below 10^20, which every `u64` is: `to_string`, `{}` and `{:0w}`.
use deltio.Prelude.{
  Bytes, [], if◌then◌else◌, length, ltb, suc, zero, ℕ, ◌%◌, ◌++◌, ◌+◌, ◌-◌, ◌/◌, ◌∷◌, nat_eq,
}

-- Digits are written from the last to the first; 20 rounds print every `u64`.
unfoldable pub digits : ℕ → ℕ → Bytes → Bytes
digits zero n out = out
digits (suc fuel) n out =
    let more = digits fuel (n / 10) ((b'0' + n % 10) ∷ out) in
    if ltb n 10 then (b'0' + n) ∷ out else more

unfoldable pub decimal : ℕ → Bytes
unfolding digits
decimal n = digits 20 n []

abbrev zeros : ℕ → Bytes
zeros zero = []
zeros (suc k) = b'0' ∷ zeros k

-- `{:0w}`: zeros on the left up to the width.
unfoldable pub padded : ℕ → ℕ → Bytes
unfolding decimal
padded width n = let text = decimal n in zeros (width - length text) ++ text
