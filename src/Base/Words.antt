-- ===== src/Base/Words.antt =====
-- `text.includes(word)`, and `text.toLowerCase().includes(word)` for a word of lower-case ASCII letters other than k: no other
-- letter of Unicode lowers to one of those.
use Prim.Native.Nat.{ℕ, ◌+◌}
use Prim.Native.Char.{code}
use Prim.Native.String.{String}
use mathlib.Core.Bool.{Bool, true, false, ◌&&◌, ◌||◌}
use mathlib.Core.List.{List, [], ◌∷◌}
use real_estate_platform.Base.Tests.{if◌then◌else◌, leb, ◌=?◌}

abbrev pub codes : String → List ℕ
codes String.[] = []
codes (String.◌∷◌ c s) = code c ∷ codes s

abbrev pub lower : ℕ → ℕ
lower c = if leb 65 c && leb c 90 then c + 32 else c

begins : List ℕ → List ℕ → Bool
begins text [] = true
begins [] (c ∷ word) = false
begins (d ∷ text) (c ∷ word) = lower d =? c && begins text word

mentions_codes : List ℕ → List ℕ → Bool
mentions_codes [] word = begins [] word
mentions_codes (c ∷ text) word = begins (c ∷ text) word || mentions_codes text word

unfoldable pub mentions : String → String → Bool
unfolding begins mentions_codes
mentions text word = mentions_codes (codes text) (codes word)

begins_exactly : List ℕ → List ℕ → Bool
begins_exactly text [] = true
begins_exactly [] (c ∷ word) = false
begins_exactly (d ∷ text) (c ∷ word) = d =? c && begins_exactly text word

contains_codes : List ℕ → List ℕ → Bool
contains_codes [] word = begins_exactly [] word
contains_codes (c ∷ text) word = begins_exactly (c ∷ text) word || contains_codes text word

-- `text.includes(word)`.
unfoldable pub contains : String → String → Bool
unfolding begins_exactly contains_codes
contains text word = contains_codes (codes text) (codes word)
