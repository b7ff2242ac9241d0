-- ===== src/Config/Token/Words.antt =====
-- The values that `parse_token` gives to tokens of type `TOKEN_TYPE_NORMAL`, and how it reads them.
use creeper_url_shortening_w.Config.Token.{
  normal, initial_whitespace, single_quote, double_quote, token_type_normal, is_blank, ends_word,
  on_whitespace, on_char, scan, parse_token, continue,
}
use creeper_url_shortening_w.Config.Token.Steps.{token, scan-continue, scan-return, scan-unget}
use creeper_url_shortening_w.Prelude.Text.{Bytes}
use creeper_url_shortening_w.Prelude.{
  ℕ, Bool, true, false, not, ◌||◌, ◌≡◌, refl, ap, ◌∙◌, [], ◌∷◌, ◌++◌, arith, ◌==◌, append_assoc,
  append-nil,
}

-- A byte that begins a word: none that the first state treats in a special way.
abbrev pub starts_word : ℕ → Bool
starts_word c = not (
    c == b'{'
    || c == b'}'
    || c == b'#'
    || c == b'"'
    || c == b'\''
    || c == b';'
    || c == b' '
    || c == b'\t'
    || c == b'\n'
    || c == b'\r')

-- Every byte of the list fails the test.
abbrev pub Avoids : (ℕ → Bool) → Bytes → Type 0
Avoids p [] = Unit
Avoids p (c ∷ cs) = (p c ≡ false) × Avoids p cs

pub data IsToken : Bytes → Type 0 where
  word : {c : ℕ} {cs : Bytes} → starts_word c ≡ true → Avoids ends_word cs → IsToken (c ∷ cs)
  single_quoted :
      (cs : Bytes) {t : Bytes}
      → t ≡ b'\'' ∷ (cs ++ b'\'' ∷ [])
      → Avoids (λ c. c == b'\'') cs
      → IsToken t
  double_quoted :
      (cs : Bytes) {t : Bytes}
      → t ≡ b'"' ∷ (cs ++ b'"' ∷ [])
      → Avoids (λ c. c == b'"') cs
      → IsToken t

pub scan-word :
    (v cs : Bytes) (b : ℕ) (rest : Bytes)
    → Avoids ends_word cs
    → ends_word b ≡ true
    → scan token_type_normal v (cs ++ b ∷ rest) ≡ token normal (v ++ cs) (b ∷ rest)
scan-word v [] b rest a h =
    scan-unget token_type_normal v b rest v (unfold on_char in rw h) ∙ rw append-nil
scan-word v (c ∷ cs) b rest (n, a) h =
    scan-continue token_type_normal v c (cs ++ b ∷ rest) token_type_normal (v ++ c ∷ [])
      (unfold on_char in rw n)
    ∙ scan-word (v ++ c ∷ []) cs b rest a h
    ∙ rw append_assoc

scan-single :
    (v cs rest : Bytes)
    → Avoids (λ c. c == b'\'') cs
    → scan single_quote v (cs ++ b'\'' ∷ rest) ≡ token normal (v ++ (cs ++ b'\'' ∷ [])) rest
scan-single v [] rest a =
    scan-return single_quote v b'\'' rest normal (v ++ b'\'' ∷ []) (unfold on_char in refl)
scan-single v (c ∷ cs) rest (n, a) =
    scan-continue single_quote v c _ single_quote (v ++ c ∷ []) (unfold on_char in rw n)
    ∙ scan-single (v ++ c ∷ []) cs rest a
    ∙ rw append_assoc

scan-double :
    (v cs rest : Bytes)
    → Avoids (λ c. c == b'"') cs
    → scan double_quote v (cs ++ b'"' ∷ rest) ≡ token normal (v ++ (cs ++ b'"' ∷ [])) rest
scan-double v [] rest a =
    scan-return double_quote v b'"' rest normal (v ++ b'"' ∷ []) (unfold on_char in refl)
scan-double v (c ∷ cs) rest (n, a) =
    scan-continue double_quote v c _ double_quote (v ++ c ∷ []) (unfold on_char in rw n)
    ∙ scan-double (v ++ c ∷ []) cs rest a
    ∙ rw append_assoc

pub on_char-starts_word :
    (c : ℕ)
    → starts_word c ≡ true
    → on_char initial_whitespace [] c ≡ continue token_type_normal (c ∷ [])
unfolding on_char on_whitespace is_blank
on_char-starts_word c h = ground arith

-- A token that stands before a byte which ends a word is read, and that byte is left.
pub parse_token-IsToken :
    (t : Bytes) (b : ℕ) (rest : Bytes)
    → IsToken t
    → ends_word b ≡ true
    → parse_token (t ++ b ∷ rest) ≡ token normal t (b ∷ rest)
unfolding parse_token
parse_token-IsToken _ b rest (word {c} {cs} h a) e =
    scan-continue initial_whitespace [] c (cs ++ b ∷ rest) token_type_normal (c ∷ [])
      (on_char-starts_word c h)
    ∙ scan-word (c ∷ []) cs b rest a e
parse_token-IsToken t b rest (single_quoted cs q a) e = rw q (
    scan-continue initial_whitespace [] b'\'' ((cs ++ b'\'' ∷ []) ++ b ∷ rest) single_quote
      (b'\'' ∷ []) (unfold on_char in refl)
    ∙ ap (scan single_quote (b'\'' ∷ [])) (append_assoc cs (b'\'' ∷ []) (b ∷ rest))
    ∙ scan-single (b'\'' ∷ []) cs (b ∷ rest) a)
parse_token-IsToken t b rest (double_quoted cs q a) e = rw q (
    scan-continue initial_whitespace [] b'"' ((cs ++ b'"' ∷ []) ++ b ∷ rest) double_quote
      (b'"' ∷ []) (unfold on_char in refl)
    ∙ ap (scan double_quote (b'"' ∷ [])) (append_assoc cs (b'"' ∷ []) (b ∷ rest))
    ∙ scan-double (b'"' ∷ []) cs (b ∷ rest) a)

on_char_blank :
    (b : ℕ) → is_blank b ≡ true → on_char initial_whitespace [] b ≡ continue initial_whitespace []
unfolding on_char on_whitespace is_blank
on_char_blank b h = ground arith

-- Blanks before a token are skipped.
pub parse_token_blank :
    (b : ℕ) (rest : Bytes) → is_blank b ≡ true → parse_token (b ∷ rest) ≡ parse_token rest
unfolding parse_token
parse_token_blank b rest h =
    scan-continue initial_whitespace [] b rest initial_whitespace [] (on_char_blank b h)
