-- ===== src/Crud/Uri.antt =====
-- `extract_entity` and `extract_id`: `std::regex_search` with the patterns `<base_uri>/([^/]+)` and
-- `<base_uri>/[^/]+/([^/]+)`. `base_uri` is read as a regular expression too, in the language of
-- `std::regex`, which is an argument: what its matches at the front of a text leave, in the order in
-- which they are tried. It is taken to have no group of its own, which would be `match[1]`.
pub mod Written
use creeper_url_shortening_w.Prelude.Text.{Bytes, is_prefix}
use creeper_url_shortening_w.Prelude.{
  List, [], ◌∷◌, Option, none, some, ◌==◌, length, drop, if◌then◌else◌,
}

abbrev pub BasePattern : Type 0
BasePattern = Bytes → List Bytes

-- What a pattern without special characters matches.
unfoldable pub literal : Bytes → BasePattern
literal base_uri s = if is_prefix base_uri s then drop (length base_uri) s ∷ [] else []

-- `[^/]*` at the front, and what follows it
unfoldable pub segment : Bytes → Bytes
segment [] = []
segment (c ∷ s) = let rest = segment s in if c == b'/' then [] else c ∷ rest

unfoldable pub behind_segment : Bytes → Bytes
behind_segment [] = []
behind_segment (c ∷ s) = let rest = behind_segment s in if c == b'/' then c ∷ s else rest

abbrev pub non_empty : Bytes → Option Bytes
non_empty [] = none
non_empty (c ∷ s) = some (c ∷ s)

-- `/([^/]+)` at the front: what the group matches
unfoldable pub entity_at : Bytes → Option Bytes
unfolding segment
entity_at [] = none
entity_at (c ∷ s) = if c == b'/' then non_empty (segment s) else none

-- `[^/]+` and then `/([^/]+)`
unfoldable pub id_behind : Bytes → Option Bytes → Option Bytes
id_behind s none = none
id_behind s (some entity) = entity_at (behind_segment s)

-- `/[^/]+/([^/]+)` at the front
unfoldable pub id_at : Bytes → Option Bytes
unfolding entity_at behind_segment id_behind
id_at [] = none
id_at (c ∷ s) = id_behind s (entity_at (c ∷ s))

unfoldable pub first_match : (Bytes → Option Bytes) → List Bytes → Option Bytes
first_match at [] = none
first_match at (rest ∷ rests) = elim (at rest) [
  | some group ↦ some group
  | none ↦ first_match at rests
]

-- `std::regex_search`: the first place of the text where base and the rest match
unfoldable pub search_from : BasePattern → (Bytes → Option Bytes) → Bytes → Option Bytes
unfolding first_match
search_from base at [] = first_match at (base [])
search_from base at (c ∷ s) = elim (first_match at (base (c ∷ s))) [
  | some group ↦ some group
  | none ↦ search_from base at s
]

-- `match[1].str()`, or the empty text
abbrev pub or_empty : Option Bytes → Bytes
or_empty (some group) = group
or_empty none = []

unfoldable pub extract_entity : BasePattern → Bytes → Bytes
unfolding search_from entity_at
extract_entity base uri = or_empty (search_from base entity_at uri)

unfoldable pub extract_id : BasePattern → Bytes → Bytes
unfolding search_from id_at
extract_id base uri = or_empty (search_from base id_at uri)
