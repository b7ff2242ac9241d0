-- ===== src/Config/Parser.antt =====
-- `NginxConfigParser::parse` on a stream. `config_stack` lists the open blocks, innermost first, and
-- each block lists its statements, the back of the vector first. A block is attached to the
-- statement that opened it when it is popped instead of when it is pushed: the two agree once every
-- block is closed, as it is in each config that is returned.
pub mod Fuel
mod Rounds
mod Reads
mod Blocks
pub mod RoundTrip
mod Invariant
pub mod Sound
pub mod Endings
use mathlib.Core.List.{reverse}
use creeper_url_shortening_w.Config.Token.{
  TokenType, start, normal, start_block, end_block, comment, statement_end, eof, error, Token,
  parse_token,
}
use creeper_url_shortening_w.Config.{
  NginxConfigStatement, simple, block, NginxConfig, of_statements,
}
use creeper_url_shortening_w.Prelude.Text.{Bytes}
use creeper_url_shortening_w.Prelude.{
  ℕ, zero, suc, Bool, not, ◌&&◌, ◌||◌, List, [], ◌∷◌, ◌++◌, length, ◌==◌, if◌then◌else◌,
}

pub record ParserState : Type 0 where
  pub config_stack : List (List NginxConfigStatement)
  pub last_token_type : TokenType

-- `accepted`: the call returns true, with this config. `rejected`: it returns false. `undefined`:
-- it calls `top` or `pop` on an empty stack, or `back` on an empty vector.
pub data ParseResult : Type 0 where
  accepted : NginxConfig → ParseResult
  rejected undefined out_of_fuel : ParseResult

-- One round of the loop goes on, or returns.
pub data Round : Type 0 where
  next : List (List NginxConfigStatement) → TokenType → Round
  stop : ParseResult → Round

-- the values of the enumeration `TokenType`
abbrev pub value_of : TokenType → ℕ
value_of start = 0
value_of normal = 1
value_of start_block = 2
value_of end_block = 3
value_of comment = 4
value_of statement_end = 5
value_of eof = 6
value_of error = 7

abbrev pub same : TokenType → TokenType → Bool
same a b = value_of a == value_of b

-- `tokens_.push_back(token)`
unfoldable pub push_token : NginxConfigStatement → Bytes → NginxConfigStatement
push_token (simple ts) token = simple (ts ++ token ∷ [])
push_token (block ts child) token = block (ts ++ token ∷ []) child

unfoldable pub push_to_back :
    List (List NginxConfigStatement) → List NginxConfigStatement → Bytes → Round
unfolding push_token
push_to_back stack [] token = stop undefined
push_to_back stack (s ∷ ss) token = next ((push_token s token ∷ ss) ∷ stack) normal

unfoldable pub on_normal : List (List NginxConfigStatement) → TokenType → Bytes → Round
unfolding push_to_back
on_normal [] last token =
    if same last start
      || same last statement_end
      || same last start_block
      || same last end_block
      || same last normal
    then stop undefined
    else stop rejected
on_normal (top ∷ stack) last token =
    if same last start
      || same last statement_end
      || same last start_block
      || same last end_block
      || same last normal
    then push_to_back stack (if not (same last normal) then simple [] ∷ top else top) token
    else stop rejected

unfoldable pub on_statement_end : List (List NginxConfigStatement) → TokenType → Round
on_statement_end stack last =
    if not (same last normal) then stop rejected else next stack statement_end

unfoldable pub push_block : List (List NginxConfigStatement) → Round
push_block [] = stop undefined
push_block ([] ∷ stack) = stop undefined
push_block (top ∷ stack) = next ([] ∷ top ∷ stack) start_block

unfoldable pub on_start_block : List (List NginxConfigStatement) → TokenType → Round
unfolding push_block
on_start_block stack last = if not (same last normal) then stop rejected else push_block stack

-- the statement that opened a block, with the block as its child
unfoldable pub attach : NginxConfigStatement → List NginxConfigStatement → NginxConfigStatement
attach (simple ts) body = block ts (of_statements (reverse body))
attach (block ts old) body = block ts (of_statements (reverse body))

unfoldable pub pop_block : List (List NginxConfigStatement) → Round
unfolding attach
pop_block [] = stop undefined
pop_block (top ∷ []) = next [] end_block
pop_block (top ∷ [] ∷ stack) = stop undefined
pop_block (top ∷ (s ∷ ss) ∷ stack) = next ((attach s top ∷ ss) ∷ stack) end_block

unfoldable pub on_end_block : List (List NginxConfigStatement) → TokenType → Round
unfolding pop_block
on_end_block stack last =
    if not (same last statement_end) && not (same last end_block) && not (same last start_block)
    then stop rejected
    else pop_block stack

-- `config_stack.size() != 1`
unfoldable pub finish : List (List NginxConfigStatement) → ParseResult
finish (top ∷ []) = accepted (of_statements (reverse top))
finish _ = rejected

unfoldable pub on_eof : List (List NginxConfigStatement) → TokenType → Round
unfolding finish
on_eof stack last =
    if not (same last statement_end) && not (same last end_block)
    then stop rejected
    else stop (finish stack)

-- the body of `while (true)` behind `parse_token`
unfoldable pub on_token : ParserState → TokenType → Bytes → Round
unfolding on_normal on_statement_end on_start_block on_end_block on_eof
on_token s error token = stop rejected
on_token s comment token = next s.config_stack s.last_token_type
on_token s normal token = on_normal s.config_stack s.last_token_type token
on_token s statement_end token = on_statement_end s.config_stack s.last_token_type
on_token s start_block token = on_start_block s.config_stack s.last_token_type
on_token s end_block token = on_end_block s.config_stack s.last_token_type
on_token s eof token = on_eof s.config_stack s.last_token_type
on_token s start token = stop rejected

abbrev pub state : List (List NginxConfigStatement) → TokenType → ParserState
state stack last = record { config_stack = stack; last_token_type = last }

-- One round with the token that was read; `loop` is what the rounds behind it do.
unfoldable pub round : (ParserState → Bytes → ParseResult) → ParserState → Token → ParseResult
unfolding on_token
round loop s t = elim (on_token s t.type t.value) [
  | next stack last ↦ loop (state stack last) t.rest
  | stop result ↦ result
]

-- `while (true)`, on fuel
unfoldable pub parse_loop : ℕ → ParserState → Bytes → ParseResult
unfolding round
parse_loop zero s input = out_of_fuel
parse_loop (suc fuel) s input = round (parse_loop fuel) s (parse_token input)

-- Each round but the last takes a byte from the stream, so this fuel is enough (Config/Parser/Fuel).
unfoldable pub parse : Bytes → ParseResult
unfolding parse_loop
parse input = parse_loop (suc (length input)) (state ([] ∷ []) start) input
