-- ===== src/Http/Framing.antt =====
-- Where a client finds the body in the text of a response.
use creeper_url_shortening_w.Http.{Header, Response, crlf, header_lines, response_to_string}
use creeper_url_shortening_w.Prelude.Decimal.{dec, AllDigits, dec-AllDigits}
use creeper_url_shortening_w.Prelude.Text.{Bytes, codes, is_prefix}
use creeper_url_shortening_w.Prelude.{
  ℕ, ◌≡◌, ◌≢◌, refl, ap, ◌∙◌, Bool, true, false, not, ◌&&◌, List, [], ◌∷◌, ◌++◌, Option, none, some,
  drop, if◌then◌else◌, append_assoc, arith, length, ◌==◌,
}

-- What stands behind the first empty line.
unfoldable pub body_of : Bytes → Option Bytes
body_of [] = none
body_of (c ∷ s) =
    let rest = body_of s in if is_prefix (crlf ++ crlf) (c ∷ s) then some (drop 3 s) else rest

-- No byte is a carriage return.
abbrev pub IsClean : Bytes → Type 0
IsClean [] = Unit
IsClean (c ∷ s) = (c ≢ 13) × IsClean s

abbrev pub is_clean : Bytes → Bool
is_clean [] = true
is_clean (c ∷ s) = not (c == 13) && is_clean s

pub is_clean-IsClean : (s : Bytes) → is_clean s ≡ true → IsClean s
is_clean-IsClean [] e = tt
is_clean-IsClean (c ∷ s) e = ((λ f. ground (arith, e, f)), is_clean-IsClean s (ground (arith, e)))

digits_IsClean : (s : Bytes) → AllDigits s → IsClean s
digits_IsClean [] h = tt
digits_IsClean (c ∷ s) (h, _, hs) = ((λ e. omega (arith, h, e)), digits_IsClean s hs)

not_return : (c : ℕ) → c ≢ 13 → 13 == c ≡ false
not_return c h = ground arith

-- The search passes over text without a carriage return.
skip_clean : (a t : Bytes) → IsClean a → body_of (a ++ t) ≡ body_of t
unfolding body_of is_prefix
skip_clean [] t h = refl
skip_clean (c ∷ a) t (h, hs) = rw (not_return c h) (skip_clean a t hs)

abbrev StartsClean : Bytes → Type 0
StartsClean [] = Unit
StartsClean (c ∷ s) = c ≢ 13

skip_crlf : (t : Bytes) → StartsClean t → body_of (crlf ++ t) ≡ body_of t
unfolding body_of is_prefix
skip_crlf [] h = refl
skip_crlf (c ∷ t) h = rw (not_return c h) refl

empty_line : (s : Bytes) → body_of (crlf ++ (crlf ++ s)) ≡ some s
unfolding body_of is_prefix
empty_line s = refl

-- No name and no value of a header has a carriage return.
abbrev pub AreClean : List Header → Type 0
AreClean [] = Unit
AreClean (h ∷ hs) = IsClean h.name × IsClean h.value × AreClean hs

-- The lines of the headers in front of `t`, the first header's line taken apart.
header_lines-append :
    (h : Header) (hs : List Header) (t : Bytes)
    → header_lines (h ∷ hs) ++ t
      ≡ h.name ++ (codes ": " ++ (h.value ++ (crlf ++ (header_lines hs ++ t))))
unfolding header_lines
header_lines-append h hs t =
    append_assoc h.name _ t ∙ ap (λ x. h.name ++ (codes ": " ++ x)) (append_assoc h.value _ t)

headers_StartsClean :
    (hs : List Header) (t : Bytes)
    → AreClean hs
    → StartsClean t
    → StartsClean (header_lines hs ++ t)
unfolding header_lines
headers_StartsClean [] t clean h = h
headers_StartsClean (x ∷ hs) t (name, value, rest) h = starts x.name name
  where
    starts :
        (n : Bytes)
        → IsClean n
        → StartsClean ((n ++ (codes ": " ++ (x.value ++ (crlf ++ header_lines hs)))) ++ t)
    starts [] clean = λ e. cc e
    starts (c ∷ n) (clean, _) = clean

skip_headers :
    (hs : List Header) (t : Bytes)
    → AreClean hs
    → StartsClean t
    → body_of (header_lines hs ++ t) ≡ body_of t
unfolding header_lines
skip_headers [] t clean h = refl
skip_headers (x ∷ hs) t (name, value, rest) h =
    ap body_of (header_lines-append x hs t)
    ∙ skip_clean x.name _ name
    ∙ skip_clean (codes ": ") _ (is_clean-IsClean (codes ": ") refl)
    ∙ skip_clean x.value _ value
    ∙ skip_crlf (header_lines hs ++ t) (headers_StartsClean hs t rest h)
    ∙ skip_headers hs t rest h

-- Where neither the status message nor a header has a carriage return, the body of a response is what
-- stands behind the first empty line of its text.
pub body_of-response_to_string :
    (r : Response)
    → IsClean r.status_message
    → AreClean r.headers
    → body_of (response_to_string r) ≡ some r.body
unfolding response_to_string
body_of-response_to_string r message headers =
    let starts : 67 ≢ 13 = λ e. cc e in
    skip_clean (codes "HTTP/1.1 ") _ (is_clean-IsClean (codes "HTTP/1.1 ") refl)
    ∙ skip_clean (dec r.status_code) _ (digits_IsClean _ (dec-AllDigits r.status_code))
    ∙ skip_clean (codes " ") _ (is_clean-IsClean (codes " ") refl)
    ∙ skip_clean r.status_message _ message
    ∙ skip_crlf _ (headers_StartsClean r.headers _ headers starts)
    ∙ skip_headers r.headers _ headers starts
    ∙ skip_clean (codes "Content-Length: ") _ (is_clean-IsClean (codes "Content-Length: ") refl)
    ∙ skip_clean (dec (length r.body)) _ (digits_IsClean _ (dec-AllDigits (length r.body)))
    ∙ empty_line r.body
