-- ===== src/Tests/Configs.antt =====
-- The configuration file: runs of the parser and the printer.
use creeper_url_shortening_w.Config.{simple, block, NginxConfig, empty, item}
use creeper_url_shortening_w.Config.WellFormed.{is_simple, is_block, IsConfig, is_empty, is_item}
use creeper_url_shortening_w.Config.Printer.{
  config_to_string, statement_to_string, indent, join_tokens,
}
use creeper_url_shortening_w.Config.Token.Words.{IsToken, word}
use creeper_url_shortening_w.Config.Token.{ends_word, parse_token}
use creeper_url_shortening_w.Config.Parser.{accepted, rejected, undefined, out_of_fuel, parse}
use creeper_url_shortening_w.Config.Parser.Fuel.{parse-ne-out_of_fuel}
use creeper_url_shortening_w.Config.Parser.RoundTrip.{parse-config_to_string}
use creeper_url_shortening_w.Config.Parser.Sound.{parse-IsConfig, parse-config_to_string-parse}
use creeper_url_shortening_w.Config.Parser.Endings.{parse_last_word, parse_extra_brace}
use creeper_url_shortening_w.Prelude.Text.{Bytes, codes}
use creeper_url_shortening_w.Prelude.{◌≡◌, ◌≢◌, refl, [], ◌∷◌, ◌++◌}

abbrev text : Bytes
text =
    codes
      "port 80; # my port\nlocation / NotFoundHandler {\n}\nlocation /api CrudHandler {data_path '/x y';}"

abbrev config : NginxConfig
config = item (simple (codes "port" ∷ codes "80" ∷ [])) (
    item (block (codes "location" ∷ codes "/" ∷ codes "NotFoundHandler" ∷ []) empty) (
      item
        (block (codes "location" ∷ codes "/api" ∷ codes "CrudHandler" ∷ [])
          (item (simple (codes "data_path" ∷ codes "'/x y'" ∷ [])) empty))
        empty))

parse-text : parse text ≡ accepted config
unfolding parse parse_token
parse-text = refl

rejections :
    (parse [] ≡ rejected)
    × (parse (codes "a; ;") ≡ rejected)
    × (parse (codes "a { b;") ≡ rejected)
    × (parse (codes "a 'b;") ≡ rejected)
    × (parse (codes "a; } b;") ≡ undefined)
unfolding parse parse_token
rejections = (refl, refl, refl, refl, refl)

carriage_return :
    parse (codes "a b\r\n;") ≡ accepted (item (simple (codes "a" ∷ codes "b\r" ∷ [])) empty)
unfolding parse parse_token
carriage_return = refl

abbrev small : NginxConfig
small = item (block (codes "a" ∷ codes "b" ∷ []) (item (simple (codes "c" ∷ [])) empty)) empty

small-text : config_to_string 0 small ≡ codes "a b {\n  c;\n}\n"
unfolding config_to_string statement_to_string indent join_tokens
small-text = refl

small_word : IsToken (codes "a") × IsToken (codes "b") × IsToken (codes "c")
unfolding ends_word
small_word = (word refl tt, word refl tt, word refl tt)

small-IsConfig : IsConfig small
small-IsConfig =
    is_item
      (is_block (small_word.0, (small_word.1, tt))
        (is_item (is_simple (small_word.2, tt)) is_empty))
      is_empty

small-ne-empty : small ≢ empty
small-ne-empty = cc

parse-ne-out_of_fuel_example : parse text ≢ out_of_fuel
parse-ne-out_of_fuel_example = parse-ne-out_of_fuel text

parse-config_to_string_example : parse (config_to_string 0 small) ≡ accepted small
parse-config_to_string_example = parse-config_to_string small small-IsConfig small-ne-empty

parse-IsConfig_example : IsConfig config × (config ≢ empty)
parse-IsConfig_example = parse-IsConfig text config parse-text

parse-config_to_string-parse_example : parse (config_to_string 0 config) ≡ parse text
parse-config_to_string-parse_example = parse-config_to_string-parse text config parse-text

parse_last_word_example : parse (config_to_string 0 small ++ codes "x") ≡ accepted small
parse_last_word_example = parse_last_word small b'x' [] small-IsConfig small-ne-empty refl tt

parse_extra_brace_example :
    parse (config_to_string 0 small ++ b'}' ∷ (codes "c" ++ b';' ∷ [])) ≡ undefined
parse_extra_brace_example =
    parse_extra_brace small (codes "c") small-IsConfig small-ne-empty small_word.2
