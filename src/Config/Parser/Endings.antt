-- ===== src/Config/Parser/Endings.antt =====
-- What `parse` makes of text behind a whole config: a last word that no `;` ends, and a brace that
-- closes nothing.
use mathlib.Core.List.{reverse}
use creeper_url_shortening_w.Config.{NginxConfigStatement, NginxConfig, empty, item, of_statements}
use creeper_url_shortening_w.Config.WellFormed.{IsConfig}
use creeper_url_shortening_w.Config.Printer.{config_to_string}
use creeper_url_shortening_w.Config.Token.{
  TokenType, start, normal, end_block, eof, initial_whitespace, token_type_normal, on_char,
  ends_word, scan, parse_token,
}
use creeper_url_shortening_w.Config.Token.Steps.{token, scan-continue}
use creeper_url_shortening_w.Config.Token.Words.{
  IsToken, Avoids, starts_word, on_char-starts_word, parse_token-IsToken,
}
use creeper_url_shortening_w.Config.Parser.{
  ParserState, ParseResult, accepted, undefined, next, on_token, state, round, parse_loop, parse,
}
use creeper_url_shortening_w.Config.Parser.Rounds.{parse_from, parse_from-next, parse_loop-suc}
use creeper_url_shortening_w.Config.Parser.Reads.{at_start}
use creeper_url_shortening_w.Config.Parser.Blocks.{last_of, last_in, pushed, of_statements-pushed}
use creeper_url_shortening_w.Config.Parser.RoundTrip.{
  read_config, Ends, simple_last, block_last, Ends-last_in, Ends-last_of,
}
use creeper_url_shortening_w.Prelude.Text.{Bytes}
use creeper_url_shortening_w.Prelude.{
  ℕ, true, ◌≡◌, ◌≢◌, refl, ap, ◌∙◌, List, [], ◌∷◌, ◌++◌, append_assoc, append-nil, length,
}

-- The text of the config is read, and what is behind it is not.
read_whole :
    (s : NginxConfigStatement) (c : NginxConfig) (rest : Bytes)
    → IsConfig (item s c)
    → parse (config_to_string 0 (item s c) ++ rest)
      ≡ parse_from (state (pushed (item s c) [] ∷ []) (last_in start (item s c))) rest
unfolding parse
read_whole s c rest h = read_config (item s c) 0 [] [] start rest at_start h

ends : (s : NginxConfigStatement) (c : NginxConfig) → Ends (last_in start (item s c))
ends s c = Ends-last_in c (last_of s) (Ends-last_of s)

scan_last_word :
    (v cs : Bytes) → Avoids ends_word cs → scan token_type_normal v cs ≡ token eof (v ++ cs) []
scan_last_word v [] a = rw append-nil (unfold scan in refl)
scan_last_word v (c ∷ cs) (n, a) =
    scan-continue token_type_normal v c cs token_type_normal (v ++ c ∷ []) (unfold on_char in rw n)
    ∙ scan_last_word (v ++ c ∷ []) cs a
    ∙ rw append_assoc

parse_token_last_word :
    (c : ℕ) (cs : Bytes)
    → starts_word c ≡ true
    → Avoids ends_word cs
    → parse_token (c ∷ cs) ≡ token eof (c ∷ cs) []
unfolding parse_token
parse_token_last_word c cs h a =
    scan-continue initial_whitespace [] c cs token_type_normal (c ∷ []) (on_char-starts_word c h)
    ∙ scan_last_word (c ∷ []) cs a

round_eof :
    (loop : ParserState → Bytes → ParseResult) (top : List NginxConfigStatement) (last : TokenType)
    (v : Bytes)
    → Ends last
    → round loop (state (top ∷ []) last) (token eof v []) ≡ accepted (of_statements (reverse top))
unfolding round
round_eof loop top _ v simple_last = refl
round_eof loop top _ v block_last = refl

-- A config behind which stands one last word, with no `;` and nothing else, is accepted as if the
-- word were not there.
pub parse_last_word :
    (x : NginxConfig) (c : ℕ) (cs : Bytes)
    → IsConfig x
    → x ≢ empty
    → starts_word c ≡ true
    → Avoids ends_word cs
    → parse (config_to_string 0 x ++ c ∷ cs) ≡ accepted x
parse_last_word empty c cs h ne k a = absurd (ne refl)
parse_last_word (item s x) c cs h ne k a =
    read_whole s x (c ∷ cs) h
    ∙ parse_loop-suc (length (c ∷ cs)) _ (c ∷ cs)
    ∙ ap
        (round (parse_loop (length (c ∷ cs)))
          (state (pushed (item s x) [] ∷ []) (last_in start (item s x))))
        (parse_token_last_word c cs k a)
    ∙ round_eof _ (pushed (item s x) []) (last_in start (item s x)) (c ∷ cs) (ends s x)
    ∙ ap accepted (of_statements-pushed (item s x))

on_token_pop :
    (top : List NginxConfigStatement) (last : TokenType) (v : Bytes)
    → Ends last
    → on_token (state (top ∷ []) last) end_block v ≡ next [] end_block
unfolding on_token
on_token_pop top _ v simple_last = refl
on_token_pop top _ v block_last = refl

round_popped :
    (loop : ParserState → Bytes → ParseResult) (t rest : Bytes)
    → round loop (state [] end_block) (token normal t rest) ≡ undefined
unfolding round
round_popped loop t rest = refl

-- A config behind which stand a `}` and another statement makes `parse` read the top of an empty
-- stack.
pub parse_extra_brace :
    (x : NginxConfig) (t : Bytes)
    → IsConfig x
    → x ≢ empty
    → IsToken t
    → parse (config_to_string 0 x ++ b'}' ∷ (t ++ b';' ∷ [])) ≡ undefined
parse_extra_brace empty t h ne k = absurd (ne refl)
parse_extra_brace (item s x) t h ne k =
    read_whole s x (b'}' ∷ (t ++ b';' ∷ [])) h
    ∙ parse_from-next _ (b'}' ∷ (t ++ b';' ∷ [])) end_block (b'}' ∷ []) (t ++ b';' ∷ []) []
        end_block (unfold parse_token in refl)
        (on_token_pop (pushed (item s x) []) (last_in start (item s x)) (b'}' ∷ []) (ends s x))
    ∙ parse_loop-suc (length (t ++ b';' ∷ [])) (state [] end_block) (t ++ b';' ∷ [])
    ∙ ap (round (parse_loop (length (t ++ b';' ∷ []))) (state [] end_block))
        (parse_token-IsToken t b';' [] k (unfold ends_word in refl))
    ∙ round_popped _ t (b';' ∷ [])
