-- ===== src/Domain/Identifiers.antt =====
-- The regular expressions of src/netauto/domain/datatypes.py, which the other domain modules repeat:
-- an identifier is `[a-z][a-z0-9_]{0,63}`, and a namespace is identifiers joined by dots.
use netauto.Prelude.{
  ℕ, Bool, true, false, ◌&&◌, ◌||◌, List, [], ◌∷◌, leb, if◌then◌else◌, Text, ◌==◌, ℕ_eq, list_eq,
  option_eq, length, all,
}

unfoldable pub is_lower : ℕ → Bool
is_lower c = leb b'a' c && leb c b'z'

unfoldable pub is_word : ℕ → Bool
unfolding is_lower
is_word c = is_lower c || (leb b'0' c && leb c b'9' || c == b'_')

unfoldable pub is_identifier : Text → Bool
unfolding is_lower is_word all
is_identifier [] = false
is_identifier (c ∷ cs) = is_lower c && (all is_word cs && leb (length cs) 63)

-- the text before the first dot, and what stands behind each dot
unfoldable pub split_dots : Text → Text × List Text
split_dots [] = ([], [])
split_dots (c ∷ cs) =
    let (word, words) = split_dots cs in if c == b'.' then ([], word ∷ words) else (c ∷ word, words)

unfoldable pub is_namespace : Text → Bool
unfolding split_dots is_identifier all
is_namespace s = let (word, words) = split_dots s in is_identifier word && all is_identifier words

-- `s.startswith(prefix)`
unfoldable pub starts_with : Text → Text → Bool
starts_with s [] = true
starts_with [] (p ∷ ps) = false
starts_with (c ∷ cs) (p ∷ ps) = c == p && starts_with cs ps
