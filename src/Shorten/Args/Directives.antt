-- ===== src/Shorten/Args/Directives.antt =====
-- The block that `create_from_config` accepts.
use creeper_url_shortening_w.Config.{NginxConfigStatement, block, NginxConfig, statements, tokens}
use creeper_url_shortening_w.Prelude.Integer.{ℤ}
use creeper_url_shortening_w.Prelude.Stoi.{Stoi, number, invalid_argument, out_of_range, stoi}
use creeper_url_shortening_w.Prelude.Text.{Bytes, codes, str_eq_iff}
use creeper_url_shortening_w.Prelude.{
  ℕ, ◌≡◌, refl, ap, ◌∙◌, Bool, true, false, ◌&&◌, List, [], ◌∷◌, some, map, inl, inr, ◌==◌, length,
  arith, Bool-cases,
}
use creeper_url_shortening_w.Registry.{returned}
use creeper_url_shortening_w.Shorten.Args.{
  ShortenRequestHandlerArgs, clients, is_directive, are_directives, expected_tokens,
  validate_statements, text_of, with_port, with_pool_size, read_values, from_statements,
  create_from_config,
}

-- The words of the seven statements.
abbrev pub directives : Bytes → Bytes → Bytes → Bytes → Bytes → Bytes → Bytes → List (List Bytes)
directives ip port host name user pass size =
    (codes "redis_ip" ∷ ip ∷ [])
    ∷ (codes "redis_port" ∷ port ∷ [])
    ∷ (codes "db_host" ∷ host ∷ [])
    ∷ (codes "db_name" ∷ name ∷ [])
    ∷ (codes "db_user" ∷ user ∷ [])
    ∷ (codes "db_pass" ∷ pass ∷ [])
    ∷ (codes "pool_size" ∷ size ∷ [])
    ∷ []

and_true : (a b : Bool) → a && b ≡ true → (a ≡ true) × (b ≡ true)
and_true a b e = ground arith

-- The words of a directive are its name and its text.
is_directive-words :
    (expected : Bytes) (s : NginxConfigStatement) (words : List Bytes)
    → tokens s ≡ words
    → is_directive expected words ≡ true
    → words ≡ expected ∷ text_of s ∷ []
unfolding is_directive text_of
is_directive-words expected s [] e h = cc
is_directive-words expected s (name ∷ []) e h = cc
is_directive-words expected s (name ∷ text ∷ []) e h =
    rw (text_of, e) (ap (λ n. n ∷ text ∷ []) ((str_eq_iff name expected).0 h))
is_directive-words expected s (name ∷ text ∷ other ∷ more) e h = cc

-- The words of statements with these names.
abbrev with_texts : List Bytes → List NginxConfigStatement → List (List Bytes)
with_texts (expected ∷ es) (s ∷ ss) = (expected ∷ text_of s ∷ []) ∷ with_texts es ss
with_texts _ _ = []

are_directives-words :
    (es : List Bytes) (ss : List NginxConfigStatement)
    → are_directives es ss ≡ true
    → map tokens ss ≡ with_texts es ss
unfolding are_directives
are_directives-words [] [] e = refl
are_directives-words [] (s ∷ ss) e = cc
are_directives-words (expected ∷ es) [] e = cc
are_directives-words (expected ∷ es) (s ∷ ss) e =
    let (first, rest) = and_true (is_directive expected (tokens s)) (are_directives es ss) e in
    ap (λ w. w ∷ map tokens ss) (is_directive-words expected s (tokens s) refl first)
    ∙ ap (λ ws. (expected ∷ text_of s ∷ []) ∷ ws) (are_directives-words es ss rest)

with_pool_size_values :
    (ip : Bytes) (port : ℤ) (host name user pass : Bytes) (read : Stoi) (ip' : Bytes) (port' : ℤ)
    (host' name' user' pass' : Bytes) (size' : ℤ)
    → with_pool_size ip port host name user pass read
      ≡ returned (some (clients ip' port' host' name' user' pass' size'))
    → (ip ≡ ip')
      × (port ≡ port')
      × (host ≡ host')
      × (name ≡ name')
      × (user ≡ user')
      × (pass ≡ pass')
      × (idx : ℕ) × (read ≡ number size' idx)
with_pool_size_values ip port host name user pass (number size idx) ip' port' host' name' user'
      pass' size' e =
    (cc, cc, cc, cc, cc, cc, idx, cc)
with_pool_size_values ip port host name user pass invalid_argument ip' port' host' name' user' pass'
      size' e =
    cc
with_pool_size_values ip port host name user pass out_of_range ip' port' host' name' user' pass'
      size' e =
    cc

with_port_values :
    (ip : Bytes) (read : Stoi) (host name user pass size : Bytes) (ip' : Bytes) (port' : ℤ)
    (host' name' user' pass' : Bytes) (size' : ℤ)
    → with_port ip read host name user pass size
      ≡ returned (some (clients ip' port' host' name' user' pass' size'))
    → (ip ≡ ip')
      × ((idx : ℕ) × (read ≡ number port' idx))
      × (host ≡ host')
      × (name ≡ name')
      × (user ≡ user')
      × (pass ≡ pass')
      × ((idx : ℕ) × (stoi size ≡ number size' idx))
with_port_values ip (number port idx) host name user pass size ip' port' host' name' user' pass'
      size' e =
    let (a, b, c, d, f, g, idx', h) =
      with_pool_size_values ip port host name user pass (stoi size) ip' port' host' name' user'
        pass' size' e in
    (a, (idx, ap (λ p. number p idx) b), c, d, f, g, (idx', h))
with_port_values ip invalid_argument host name user pass size ip' port' host' name' user' pass'
      size' e =
    cc
with_port_values ip out_of_range host name user pass size ip' port' host' name' user' pass' size'
      e =
    cc

-- What the block has where `create_from_config` makes clients of it.
pub record IsDirectives (ss : List NginxConfigStatement) (ip : Bytes) (port : ℤ)
    (host name user pass : Bytes) (size : ℤ) : Type 0 where
  pub port_text : Bytes
  pub size_text : Bytes
  pub words : map tokens ss ≡ directives ip port_text host name user pass size_text
  pub port_read : (idx : ℕ) × (stoi port_text ≡ number port idx)
  pub size_read : (idx : ℕ) × (stoi size_text ≡ number size idx)

returned-valid :
    (ss : List NginxConfigStatement) (args : ShortenRequestHandlerArgs)
    → from_statements ss ≡ returned (some args)
    → (length ss == 7 ≡ true)
      × (are_directives expected_tokens ss ≡ true)
      × (read_values ss ≡ returned (some args))
unfolding from_statements
returned-valid ss args e = elim (Bool-cases (validate_statements ss)) [
  | inl valid ↦
      let (size, all) = and_true (length ss == 7) (are_directives expected_tokens ss) valid in
      (size, all, rw (from_statements, valid) at e)
  | inr invalid ↦ cc (rw (from_statements, invalid) at e)
]

seven :
    (ss : List NginxConfigStatement) (ip : Bytes) (port : ℤ) (host name user pass : Bytes)
    (size : ℤ)
    → length ss == 7 ≡ true
    → are_directives expected_tokens ss ≡ true
    → read_values ss ≡ returned (some (clients ip port host name user pass size))
    → IsDirectives ss ip port host name user pass size
unfolding are_directives expected_tokens read_values
seven [] ip port host name user pass size n all e = cc
seven (a ∷ []) ip port host name user pass size n all e = cc
seven (a ∷ b ∷ []) ip port host name user pass size n all e = cc
seven (a ∷ b ∷ c ∷ []) ip port host name user pass size n all e = cc
seven (a ∷ b ∷ c ∷ d ∷ []) ip port host name user pass size n all e = cc
seven (a ∷ b ∷ c ∷ d ∷ f ∷ []) ip port host name user pass size n all e = cc
seven (a ∷ b ∷ c ∷ d ∷ f ∷ g ∷ []) ip port host name user pass size n all e = cc
seven (a ∷ b ∷ c ∷ d ∷ f ∷ g ∷ h ∷ i ∷ more) ip port host name user pass size n all e =
    absurd (ground arith)
seven (a ∷ b ∷ c ∷ d ∷ f ∷ g ∷ h ∷ []) ip port host name user pass size n all e =
    let (v1, v2, v3, v4, v5, v6, v7) =
      with_port_values (text_of a) (stoi (text_of b)) (text_of c) (text_of d) (text_of f)
        (text_of g) (text_of h) ip port host name user pass size e in
    let words = are_directives-words expected_tokens (a ∷ b ∷ c ∷ d ∷ f ∷ g ∷ h ∷ []) all in
    record {
      port_text = text_of b;
      size_text = text_of h;
      words = cc (words, v1, v3, v4, v5, v6);
      port_read = v2;
      size_read = v7;
    }

-- Where `create_from_config` makes clients, the block has the seven directives in their order, each
-- with one text; the clients get these texts, and the port and the size of the pool are the numbers
-- that `std::stoi` reads at the front of theirs.
pub create_from_config-IsDirectives :
    (words : List Bytes) (config : NginxConfig) (ip : Bytes) (port : ℤ)
    (host name user pass : Bytes) (size : ℤ)
    → create_from_config false (block words config)
      ≡ returned (some (clients ip port host name user pass size))
    → IsDirectives (statements config) ip port host name user pass size
unfolding create_from_config
create_from_config-IsDirectives words config ip port host name user pass size e =
    let (n, all, read) = returned-valid (statements config) _ e in
    seven (statements config) ip port host name user pass size n all read
