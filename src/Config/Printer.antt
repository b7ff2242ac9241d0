-- ===== src/Config/Printer.antt =====
-- `NginxConfig::to_string` and `NginxConfigStatement::to_string`.
use creeper_url_shortening_w.Config.{NginxConfigStatement, simple, block, NginxConfig, empty, item}
use creeper_url_shortening_w.Prelude.Text.{Bytes, codes}
use creeper_url_shortening_w.Prelude.{ℕ, zero, suc, List, [], ◌∷◌, ◌++◌}

-- `for (i = 0; i < depth; ++i) append("  ")`
unfoldable pub indent : ℕ → Bytes
indent zero = []
indent (suc depth) = codes "  " ++ indent depth

-- the loop over `tokens_`, from its second round on
unfoldable pub more_tokens : List Bytes → Bytes
more_tokens [] = []
more_tokens (t ∷ ts) = b' ' ∷ (t ++ more_tokens ts)

unfoldable pub join_tokens : List Bytes → Bytes
unfolding more_tokens
join_tokens [] = []
join_tokens (t ∷ ts) = t ++ more_tokens ts

unfoldable mutual
  pub statement_to_string : ℕ → NginxConfigStatement → Bytes
  statement_to_string depth (simple ts) = indent depth ++ (join_tokens ts ++ (b';' ∷ b'\n' ∷ []))
  statement_to_string depth (block ts child) =
      indent depth
      ++ (join_tokens ts
          ++ (codes " {\n"
              ++ (config_to_string (suc depth) child ++ (indent depth ++ (b'}' ∷ b'\n' ∷ [])))))

  pub config_to_string : ℕ → NginxConfig → Bytes
  config_to_string depth empty = []
  config_to_string depth (item s c) = statement_to_string depth s ++ config_to_string depth c
