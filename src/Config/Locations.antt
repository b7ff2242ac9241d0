-- ===== src/Config/Locations.antt =====
-- `NginxConfig::get_locations` and `NginxConfig::get_port`: what the server reads from its config.
pub mod Checked
use creeper_url_shortening_w.Config.{NginxConfigStatement, NginxConfig, tokens, statements}
use creeper_url_shortening_w.Registry.{
  Registry, Created, returned, throws, undefined, CreateFromConfigFactory, get_create_from_config,
}
use creeper_url_shortening_w.Prelude.Text.{Bytes, codes, str_eq, front_is, back_is}
use creeper_url_shortening_w.Prelude.{
  Bool, true, false, not, ◌&&◌, ◌||◌, List, [], ◌∷◌, ◌++◌, Option, none, some, if◌then◌else◌,
}

pub record NginxLocation (A : Type 0) : Type 0 where
  pub path : Bytes
  pub handler : Bytes
  pub args : A

-- `NginxLocationResult`: `none` where `valid` is false. A call of `create_from_config` may throw or
-- read through a null pointer instead.
abbrev pub NginxLocationResult : Type 0 → Type 0
NginxLocationResult A = Created (List (NginxLocation A))

-- What the body of the loop does with a statement.
pub data Found (A : Type 0) : Type 0 where
  skip : Found A
  add : NginxLocation A → Found A
  invalid thrown crashed : Found A

module _ {A H : Type 0} (registry : Registry A H) where
  abbrev made : Bytes → Bytes → Created A → Found A
  made path handler (returned none) = invalid
  made path handler (returned (some args)) =
      add (record { path = path; handler = handler; args = args })
  made path handler throws = thrown
  made path handler undefined = crashed

  abbrev create :
      Bytes → Bytes → NginxConfigStatement → Option (CreateFromConfigFactory A) → Found A
  create path handler statement none = invalid
  create path handler statement (some f) = made path handler (f statement)

  unfoldable pub exists_in : Bytes → List (NginxLocation A) → Bool
  exists_in path [] = false
  exists_in path (l ∷ ls) = str_eq path l.path || exists_in path ls

  abbrev is_quoted : Bytes → Bool
  is_quoted path =
      front_is b'"' path && back_is b'"' path || front_is b'\'' path && back_is b'\'' path

  unfoldable pub check_location :
      List (NginxLocation A) → NginxConfigStatement → Bytes → Bytes → Found A
  check_location locations statement path handler =
      if is_quoted path
      then invalid
      else if back_is b'/' path && not (str_eq path (codes "/"))
      then invalid
      else if not (front_is b'/' path)
      then invalid
      else if exists_in path locations
      then invalid
      else create path handler statement (get_create_from_config handler registry)

  unfoldable pub read_statement :
      List (NginxLocation A) → NginxConfigStatement → List Bytes → Found A
  unfolding check_location
  read_statement locations statement [] = skip
  read_statement locations statement (first ∷ path ∷ handler ∷ []) =
      if str_eq first (codes "location")
      then check_location locations statement path handler
      else skip
  read_statement locations statement (first ∷ rest) =
      if str_eq first (codes "location") then invalid else skip

  unfoldable pub locations_from :
      List (NginxLocation A) → List NginxConfigStatement → NginxLocationResult A
  unfolding read_statement
  locations_from locations [] = returned (some locations)
  locations_from locations (s ∷ ss) = elim (read_statement locations s (tokens s)) [
    | skip ↦ locations_from locations ss
    | add location ↦ locations_from (locations ++ location ∷ []) ss
    | invalid ↦ returned none
    | thrown ↦ throws
    | crashed ↦ undefined
  ]

  unfoldable pub get_locations : NginxConfig → NginxLocationResult A
  unfolding locations_from
  get_locations config = locations_from [] (statements config)
