-- ===== src/Api/Text.antt =====
-- `str::trim`: the characters of the Unicode property White_Space, as UTF-8.
use deltio.Prelude.{
  Bytes, List, Option, [], drop, if◌then◌else◌, length, map, none, some, starts_with, suc, zero, ℕ,
  ◌+◌, ◌∷◌, nat_eq,
}
use mathlib.Core.List.{reverse}

abbrev narrow_spaces : ℕ → ℕ → List Bytes
narrow_spaces first zero = []
narrow_spaces first (suc count) = (226 ∷ 128 ∷ first ∷ []) ∷ narrow_spaces (first + 1) count

abbrev white_space : List Bytes
white_space =
    (9 ∷ [])
    ∷ (10 ∷ [])
    ∷ (11 ∷ [])
    ∷ (12 ∷ [])
    ∷ (13 ∷ [])
    ∷ (32 ∷ [])
    ∷ (194 ∷ 133 ∷ [])
    ∷ (194 ∷ 160 ∷ [])
    ∷ (225 ∷ 154 ∷ 128 ∷ [])
    ∷ (226 ∷ 128 ∷ 168 ∷ [])
    ∷ (226 ∷ 128 ∷ 169 ∷ [])
    ∷ (226 ∷ 128 ∷ 175 ∷ [])
    ∷ (226 ∷ 129 ∷ 159 ∷ [])
    ∷ (227 ∷ 128 ∷ 128 ∷ [])
    ∷ narrow_spaces 128 11

abbrev strip_one : List Bytes → Bytes → Option Bytes
strip_one [] s = none
strip_one (c ∷ cs) s = if starts_with s c then some (drop (length c) s) else strip_one cs s

strip_all : ℕ → List Bytes → Bytes → Bytes
strip_all zero cs s = s
strip_all (suc fuel) cs s = elim (strip_one cs s) [ none ↦ s | some s' ↦ strip_all fuel cs s' ]

-- Each character has a byte at least, so that the length is fuel enough.
abbrev strip : List Bytes → Bytes → Bytes
unfolding strip_all
strip cs s = strip_all (length s) cs s

-- The end of a text is the start of its reverse.
unfoldable pub trim : Bytes → Bytes
unfolding strip
trim s = reverse (strip (map reverse white_space) (reverse (strip white_space s)))
