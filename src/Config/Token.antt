-- ===== src/Config/Token.antt =====
-- `NginxConfigParser::parse_token`: one token from the stream, which is the list of the bytes that
-- are left. At its end `get` fails, and `good` is false from then on.
pub mod Steps
pub mod Words
pub mod Sound
use creeper_url_shortening_w.Prelude.Text.{Bytes}
use creeper_url_shortening_w.Prelude.{ℕ, Bool, ◌||◌, List, [], ◌∷◌, ◌++◌, ◌==◌, if◌then◌else◌}

pub data TokenType : Type 0 where
  start normal start_block end_block comment statement_end eof error : TokenType

pub data TokenParserState : Type 0 where
  initial_whitespace single_quote double_quote token_type_comment token_type_normal :
      TokenParserState

-- What a call returns: the type, `*value`, and the stream behind it.
pub record Token : Type 0 where
  pub type : TokenType
  pub value : Bytes
  pub rest : Bytes

-- What the switch does with one byte: `continue` in a state with a value, `return` a type with a
-- value, or `unget` the byte and return `TOKEN_TYPE_NORMAL`.
pub data Action : Type 0 where
  continue : TokenParserState → Bytes → Action
  return : TokenType → Bytes → Action
  unget : Bytes → Action

unfoldable pub is_blank : ℕ → Bool
is_blank c = c == b' ' || c == b'\t' || c == b'\n' || c == b'\r'

-- the test of `TOKEN_STATE_TOKEN_TYPE_NORMAL`, which has '\t' twice and no '\r'
unfoldable pub ends_word : ℕ → Bool
ends_word c =
    c == b' ' || c == b'\t' || c == b'\n' || c == b'\t' || c == b';' || c == b'{' || c == b'}'

unfoldable pub on_whitespace : Bytes → ℕ → Action
unfolding is_blank
on_whitespace value c =
    if c == b'{'
    then return start_block (c ∷ [])
    else if c == b'}'
    then return end_block (c ∷ [])
    else if c == b'#'
    then continue token_type_comment (c ∷ [])
    else if c == b'"'
    then continue double_quote (c ∷ [])
    else if c == b'\''
    then continue single_quote (c ∷ [])
    else if c == b';'
    then return statement_end (c ∷ [])
    else if is_blank c
    then continue initial_whitespace value
    else continue token_type_normal (value ++ c ∷ [])

-- the switch on `state`
unfoldable pub on_char : TokenParserState → Bytes → ℕ → Action
unfolding on_whitespace ends_word
on_char initial_whitespace value c = on_whitespace value c
on_char single_quote value c =
    if c == b'\'' then return normal (value ++ c ∷ []) else continue single_quote (value ++ c ∷ [])
on_char double_quote value c =
    if c == b'"' then return normal (value ++ c ∷ []) else continue double_quote (value ++ c ∷ [])
on_char token_type_comment value c =
    if c == b'\n' || c == b'\r'
    then return comment value
    else continue token_type_comment (value ++ c ∷ [])
on_char token_type_normal value c =
    if ends_word c then unget value else continue token_type_normal (value ++ c ∷ [])

-- the code behind the loop
unfoldable pub at_end : TokenParserState → TokenType
at_end single_quote = error
at_end double_quote = error
at_end _ = eof

unfoldable pub scan : TokenParserState → Bytes → Bytes → Token
unfolding on_char at_end
scan state value [] = record { type = at_end state; value = value; rest = [] }
scan state value (c ∷ input) = elim (on_char state value c) [
  | continue state' value' ↦ scan state' value' input
  | return type value' ↦ record { type = type; value = value'; rest = input }
  | unget value' ↦ record { type = normal; value = value'; rest = c ∷ input }
]

unfoldable pub parse_token : Bytes → Token
unfolding scan
parse_token input = scan initial_whitespace [] input
