-- ===== src/Config/WellFormed.antt =====
-- Which configs can be written down: each statement has a token, and each token can be read back.
use creeper_url_shortening_w.Config.{NginxConfigStatement, simple, block, NginxConfig, empty, item}
use creeper_url_shortening_w.Config.Token.Words.{IsToken}
use creeper_url_shortening_w.Prelude.Text.{Bytes}
use creeper_url_shortening_w.Prelude.{List, [], ◌∷◌}

abbrev pub AllTokens : List Bytes → Type 0
AllTokens [] = Unit
AllTokens (t ∷ ts) = IsToken t × AllTokens ts

-- The tokens of a statement, of which there is at least one, can be read back.
abbrev pub IsTokens : List Bytes → Type 0
IsTokens [] = ⊥
IsTokens (t ∷ ts) = IsToken t × AllTokens ts

mutual
  pub data IsStatement : NginxConfigStatement → Type 0 where
    is_simple : {ts : List Bytes} → IsTokens ts → IsStatement (simple ts)
    is_block :
        {ts : List Bytes} {c : NginxConfig} → IsTokens ts → IsConfig c → IsStatement (block ts c)

  pub data IsConfig : NginxConfig → Type 0 where
    is_empty : IsConfig empty
    is_item :
        {s : NginxConfigStatement} {c : NginxConfig}
        → IsStatement s
        → IsConfig c
        → IsConfig (item s c)
