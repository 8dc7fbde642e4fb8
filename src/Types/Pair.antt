-- ===== src/Types/Pair.antt =====
-- parse_pair_id of crates/shared/src/types.rs.
pub mod Laws
use Prim.Native.Char.{Char, code}
use serverless_matching_engi.Prelude.{
  String, Bool, Option, none, some, List, [], ◌∷◌, ◌==◌, if◌then◌else◌,
}

-- One more character in front of the first piece.
abbrev pub push_front : Char → List String → List String
push_front c [] = String.◌∷◌ c "" ∷ []
push_front c (piece ∷ pieces) = String.◌∷◌ c piece ∷ pieces

abbrev pub is_dash : Char → Bool
is_dash c = code c == b'-'

-- `str::split('-')`: the pieces between the dashes, at least one.
unfoldable pub split_dash : String → List String
split_dash String.[] = "" ∷ []
split_dash (String.◌∷◌ c s) =
    let rest = split_dash s in if is_dash c then "" ∷ rest else push_front c rest

abbrev pub two_pieces : List String → Option (String × String)
two_pieces (base ∷ quote ∷ []) = some (base, quote)
two_pieces _ = none

-- The base and the quote asset; `none` stands for the error "invalid pair_id format".
unfoldable pub parse_pair_id : String → Option (String × String)
unfolding split_dash
parse_pair_id pair_id = two_pieces (split_dash pair_id)
