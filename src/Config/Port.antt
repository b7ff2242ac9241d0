-- ===== src/Config/Port.antt =====
-- `NginxConfig::get_port`.
pub mod First
use creeper_url_shortening_w.Config.{NginxConfigStatement, simple, block, NginxConfig, empty, item}
use creeper_url_shortening_w.Prelude.Integer.{ℤ, pos, negsuc, int_eq}
use creeper_url_shortening_w.Prelude.Stoi.{Stoi, number, invalid_argument, out_of_range, stoi}
use creeper_url_shortening_w.Prelude.Text.{Bytes, codes, str_eq}
use creeper_url_shortening_w.Prelude.{
  Bool, true, false, List, [], ◌∷◌, Option, none, some, if◌then◌else◌,
}

abbrev pub minus_one : ℤ
minus_one = negsuc 0

-- the `try` block, with what its handler returns
abbrev pub port_number : Stoi → ℤ
port_number (number port idx) = port
port_number invalid_argument = minus_one
port_number out_of_range = minus_one

-- The text behind `port`, if the statement is a directive of two tokens.
unfoldable pub port_text : List Bytes → Option Bytes
port_text (name ∷ text ∷ []) = if str_eq name (codes "port") then some text else none
port_text _ = none

-- `if (port != -1) return port`
unfoldable pub port_in_child : ℤ → Option ℤ
unfolding int_eq
port_in_child port = if int_eq port minus_one then none else some port

-- What the loop does with a statement that is no directive: it has no child, or one with this port.
abbrev pub port_here : Option Bytes → Option ℤ → Option ℤ
port_here (some text) child = some (port_number (stoi text))
port_here none child = child

abbrev pub or_next : Option ℤ → ℤ → ℤ
or_next (some port) next = port
or_next none next = next

unfoldable mutual
  unfolding port_text port_in_child

  pub port_of : NginxConfigStatement → Option ℤ
  port_of (simple ts) = port_here (port_text ts) none
  port_of (block ts child) = port_here (port_text ts) (port_in_child (get_port child))

  pub get_port : NginxConfig → ℤ
  get_port empty = minus_one
  get_port (item s c) = or_next (port_of s) (get_port c)
