-- ===== src/Config.antt =====
-- include/config_parser.h and src/config_parser.cc: the configuration file. This file has its
-- data; the modules below have the tokens, the parser, the printer and what is read from a config.
pub mod Token
pub mod Parser
pub mod Printer
pub mod WellFormed
pub mod Locations
pub mod Port
use creeper_url_shortening_w.Prelude.Text.{Bytes}
use creeper_url_shortening_w.Prelude.{◌≡◌, refl, List, [], ◌∷◌, ◌++◌, ap}

-- A statement's `child_block_` is null in `simple`. The vector `statements_` is `empty`/`item`.
mutual
  pub data NginxConfigStatement : Type 0 where
    simple : List Bytes → NginxConfigStatement
    block : List Bytes → NginxConfig → NginxConfigStatement

  pub data NginxConfig : Type 0 where
    empty : NginxConfig
    item : NginxConfigStatement → NginxConfig → NginxConfig

abbrev pub tokens : NginxConfigStatement → List Bytes
tokens (simple ts) = ts
tokens (block ts b) = ts

abbrev pub statements : NginxConfig → List NginxConfigStatement
statements empty = []
statements (item s c) = s ∷ statements c

abbrev pub of_statements : List NginxConfigStatement → NginxConfig
of_statements [] = empty
of_statements (s ∷ ss) = item s (of_statements ss)

pub of_statements-statements : (c : NginxConfig) → of_statements (statements c) ≡ c
of_statements-statements empty = refl
of_statements-statements (item s c) = ap (item s) (of_statements-statements c)

pub statements-of_statements : (ss : List NginxConfigStatement) → statements (of_statements ss) ≡ ss
statements-of_statements [] = refl
statements-of_statements (s ∷ ss) = ap (◌∷◌ s) (statements-of_statements ss)
