-- ===== src/Shorten/Args.antt =====
-- `ShortenRequestHandlerArgs::create_from_config` and `validate_config_structure`. Connecting to Redis
-- and to the database, which ends the process where it fails, is left out.
pub mod Directives
use creeper_url_shortening_w.Config.{NginxConfigStatement, simple, block, statements, tokens}
use creeper_url_shortening_w.Prelude.Integer.{ℤ}
use creeper_url_shortening_w.Prelude.Stoi.{Stoi, number, invalid_argument, out_of_range, stoi}
use creeper_url_shortening_w.Prelude.Text.{Bytes, codes, str_eq}
use creeper_url_shortening_w.Prelude.{
  Bool, true, false, ◌&&◌, List, [], ◌∷◌, Option, none, some, ◌==◌, length, if◌then◌else◌,
}
use creeper_url_shortening_w.Registry.{Created, returned, throws, undefined}

-- What the two clients are made of.
pub data ShortenRequestHandlerArgs : Type 0 where
  fakes : ShortenRequestHandlerArgs
  clients :
      (redis_ip : Bytes) (redis_port : ℤ) (db_host db_name db_user db_pass : Bytes) (pool_size : ℤ)
      → ShortenRequestHandlerArgs

unfoldable pub expected_tokens : List Bytes
expected_tokens =
    codes "redis_ip"
    ∷ codes "redis_port"
    ∷ codes "db_host"
    ∷ codes "db_name"
    ∷ codes "db_user"
    ∷ codes "db_pass"
    ∷ codes "pool_size"
    ∷ []

-- `tokens_.size() == 2 && tokens_[0] == expected`
unfoldable pub is_directive : Bytes → List Bytes → Bool
is_directive expected (name ∷ text ∷ []) = str_eq name expected
is_directive expected _ = false

-- the loop over `expected_tokens`, where there are as many statements
unfoldable pub are_directives : List Bytes → List NginxConfigStatement → Bool
unfolding is_directive
are_directives [] [] = true
are_directives (expected ∷ es) (s ∷ ss) = is_directive expected (tokens s) && are_directives es ss
are_directives _ _ = false

unfoldable pub validate_statements : List NginxConfigStatement → Bool
unfolding are_directives expected_tokens
validate_statements ss = length ss == 7 && are_directives expected_tokens ss

-- `tokens_[1]`
unfoldable pub text_of : NginxConfigStatement → Bytes
text_of s = elim (tokens s) [ name ∷ text ∷ _ ↦ text | _ ↦ [] ]

abbrev with_pool_size :
    Bytes → ℤ → Bytes → Bytes → Bytes → Bytes → Stoi → Created ShortenRequestHandlerArgs
with_pool_size ip port host name user pass (number size idx) =
    returned (some (clients ip port host name user pass size))
with_pool_size ip port host name user pass _ = throws

abbrev with_port :
    Bytes → Stoi → Bytes → Bytes → Bytes → Bytes → Bytes → Created ShortenRequestHandlerArgs
with_port ip (number port idx) host name user pass size =
    with_pool_size ip port host name user pass (stoi size)
with_port ip _ host name user pass size = throws

-- the values of the seven statements
unfoldable pub read_values : List NginxConfigStatement → Created ShortenRequestHandlerArgs
unfolding text_of
read_values (ip ∷ port ∷ host ∷ name ∷ user ∷ pass ∷ size ∷ _) =
    with_port (text_of ip) (stoi (text_of port)) (text_of host) (text_of name) (text_of user)
      (text_of pass) (text_of size)
read_values _ = undefined

unfoldable pub from_statements : List NginxConfigStatement → Created ShortenRequestHandlerArgs
unfolding validate_statements read_values
from_statements ss = if validate_statements ss then read_values ss else returned none

abbrev from_block : NginxConfigStatement → Created ShortenRequestHandlerArgs
from_block (simple words) = undefined
from_block (block words config) = from_statements (statements config)

-- `use_fakes`: the environment has USE_FAKE_SHORTEN_CLIENTS.
unfoldable pub create_from_config : Bool → NginxConfigStatement → Created ShortenRequestHandlerArgs
unfolding from_statements
create_from_config use_fakes statement =
    if use_fakes then returned (some fakes) else from_block statement
