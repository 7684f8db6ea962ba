-- ===== src/Identifier.antt =====
-- apps/api-core/src/modules/shared/identifier.util.ts: the two forms of identifier, as the patterns
-- of their characters.
mod Tests
use real_estate_platform.Base.{
  ℕ, Bool, true, false, ◌&&◌, ◌||◌, List, [], ◌∷◌, ◌++◌, String, codes, leb, ◌=?◌,
}

-- `[0-9a-f]`, in either case.
abbrev pub is_hex : ℕ → Bool
is_hex c = (leb 48 c && leb c 57) || (leb 97 c && leb c 102) || (leb 65 c && leb c 70)

abbrev is_hyphen : ℕ → Bool
is_hyphen c = c =? 45

-- `[1-8]`, the version.
abbrev is_version : ℕ → Bool
is_version c = leb 49 c && leb c 56

-- `[89ab]`, the variant.
abbrev is_variant : ℕ → Bool
is_variant c = leb 56 c && leb c 57 || leb 97 c && leb c 98 || leb 65 c && leb c 66

-- One class of characters for each place of a text.
abbrev pub matches : List (ℕ → Bool) → List ℕ → Bool
matches [] [] = true
matches [] (c ∷ cs) = false
matches (p ∷ ps) [] = false
matches (p ∷ ps) (c ∷ cs) = p c && matches ps cs

abbrev hex4 : List (ℕ → Bool)
hex4 = is_hex ∷ is_hex ∷ is_hex ∷ is_hex ∷ []

abbrev uuid_pattern : List (ℕ → Bool)
uuid_pattern =
    (hex4 ++ hex4)
    ++ is_hyphen
      ∷ (hex4
          ++ is_hyphen
            ∷ ((is_version ∷ is_hex ∷ is_hex ∷ is_hex ∷ [])
                ++ is_hyphen
                  ∷ ((is_variant ∷ is_hex ∷ is_hex ∷ is_hex ∷ [])
                      ++ is_hyphen ∷ (hex4 ++ (hex4 ++ hex4)))))

unfoldable pub is_uuid : String → Bool
is_uuid value = matches uuid_pattern (codes value)

unfoldable pub is_object_id_hex : String → Bool
is_object_id_hex value =
    matches (hex4 ++ (hex4 ++ (hex4 ++ (hex4 ++ (hex4 ++ hex4))))) (codes value)
