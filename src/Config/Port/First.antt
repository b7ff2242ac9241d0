-- ===== src/Config/Port/First.antt =====
-- Which directive `get_port` reads.
use creeper_url_shortening_w.Config.{NginxConfigStatement, simple, block, NginxConfig, empty, item}
use creeper_url_shortening_w.Config.Port.{
  minus_one, port_number, port_text, port_in_child, port_here, or_next, port_of, get_port,
}
use creeper_url_shortening_w.Prelude.Integer.{ℤ, int_eq, int_eq_iff}
use creeper_url_shortening_w.Prelude.Stoi.{stoi}
use creeper_url_shortening_w.Prelude.Text.{Bytes}
use creeper_url_shortening_w.Prelude.{
  ◌≡◌, ◌≢◌, refl, ap, ◌∙◌, subst, inl, inr, List, [], ◌∷◌, ◌++◌, Option, none, some, Bool-cases,
  Option-cases,
}

abbrev at_head : Option Bytes → List Bytes → List Bytes
at_head none texts = texts
at_head (some text) texts = text ∷ []

-- The texts of the port directives in the order in which the file has them; what stands in the block
-- of a directive is left out, as `get_port` leaves it out.
unfoldable mutual
  pub ports_of : NginxConfigStatement → List Bytes
  ports_of (simple ts) = at_head (port_text ts) []
  ports_of (block ts child) = at_head (port_text ts) (ports child)

  pub ports : NginxConfig → List Bytes
  ports empty = []
  ports (item s c) = ports_of s ++ ports c

-- Each is the text of a number that is not -1.
abbrev pub AreNumbers : List Bytes → Type 0
AreNumbers [] = Unit
AreNumbers (text ∷ texts) = (port_number (stoi text) ≢ minus_one) × AreNumbers texts

abbrev pub first_number : List Bytes → ℤ
first_number [] = minus_one
first_number (text ∷ texts) = port_number (stoi text)

abbrev first_some : List Bytes → Option ℤ
first_some [] = none
first_some (text ∷ texts) = some (port_number (stoi text))

split : (a b : List Bytes) → AreNumbers (a ++ b) → AreNumbers a × AreNumbers b
split [] b h = (tt, h)
split (x ∷ a) b (h, hs) = let (p, q) = split a b hs in ((h, p), q)

first-append : (a b : List Bytes) → or_next (first_some a) (first_number b) ≡ first_number (a ++ b)
first-append [] b = refl
first-append (x ∷ a) b = refl

port_in_child-first :
    (texts : List Bytes) → AreNumbers texts → port_in_child (first_number texts) ≡ first_some texts
unfolding port_in_child
port_in_child-first [] h = refl
port_in_child-first (text ∷ texts) (h, hs) =
    elim (Bool-cases (int_eq (port_number (stoi text)) minus_one)) [
      | inl e ↦ absurd (h ((int_eq_iff (port_number (stoi text)) minus_one).0 e))
      | inr e ↦ rw e refl
    ]

port_here-first :
    (o : Option Bytes) (texts : List Bytes)
    → port_here o (first_some texts) ≡ first_some (at_head o texts)
port_here-first none texts = refl
port_here-first (some text) texts = refl

AreNumbers-here :
    (o : Option Bytes) (texts : List Bytes)
    → o ≡ none
    → AreNumbers (at_head o texts)
    → AreNumbers texts
AreNumbers-here o texts e h = subst (λ o. AreNumbers (at_head o texts)) e h

mutual
  unfolding port_of get_port ports_of ports

  port_of-first :
      (s : NginxConfigStatement) → AreNumbers (ports_of s) → port_of s ≡ first_some (ports_of s)
  port_of-first (simple ts) h = port_here-first (port_text ts) []
  port_of-first (block ts child) h = elim (Option-cases (port_text ts)) [
    | inl e ↦
        let inside = AreNumbers-here (port_text ts) (ports child) e h in
        ap (port_here (port_text ts)) (
          ap port_in_child (get_port-first child inside) ∙ port_in_child-first (ports child) inside)
        ∙ port_here-first (port_text ts) (ports child)
    | inr (text, e) ↦ rw e refl
  ]

  get_port-first : (c : NginxConfig) → AreNumbers (ports c) → get_port c ≡ first_number (ports c)
  get_port-first empty h = refl
  get_port-first (item s c) h =
      let (here, later) = split (ports_of s) (ports c) h in
      ap (λ o. or_next o (get_port c)) (port_of-first s here)
      ∙ ap (or_next (first_some (ports_of s))) (get_port-first c later)
      ∙ first-append (ports_of s) (ports c)

-- Where every port directive has a number other than -1, `get_port` is that of the first directive of
-- the file, and -1 where there is none.
pub get_port-first_number :
    (c : NginxConfig) → AreNumbers (ports c) → get_port c ≡ first_number (ports c)
get_port-first_number c h = get_port-first c h
