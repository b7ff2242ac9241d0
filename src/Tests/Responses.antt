-- ===== src/Tests/Responses.antt =====
-- The text of a response.
use creeper_url_shortening_w.Http.{Response, stock_404, response_to_string, header}
use creeper_url_shortening_w.Http.Framing.{is_clean-IsClean, body_of, body_of-response_to_string}
use creeper_url_shortening_w.Prelude.Decimal.{dec}
use creeper_url_shortening_w.Prelude.Text.{codes, is_prefix}
use creeper_url_shortening_w.Prelude.{◌≡◌, ◌++◌, refl, [], ◌∷◌, some}

body_of-response_to_string_example :
    body_of (response_to_string stock_404) ≡ some (codes "404 Not Found")
body_of-response_to_string_example =
    body_of-response_to_string stock_404 (is_clean-IsClean (codes "Not Found") refl)
      (is_clean-IsClean (codes "Content-Type") refl, is_clean-IsClean (codes "text/plain") refl, tt)

-- A redirection to a posted URL that holds an empty line.
abbrev injected : Response
injected = record {
  version = codes "HTTP/1.1";
  status_code = 302;
  status_message = codes "Found";
  headers = header (codes "Location") (codes "/a" ++ 13 ∷ 10 ∷ 13 ∷ 10 ∷ codes "<p>") ∷ [];
  body = [];
}

injected_body :
    body_of (response_to_string injected)
    ≡ some (codes "<p>" ++ 13 ∷ 10 ∷ codes "Content-Length: 0" ++ 13 ∷ 10 ∷ 13 ∷ 10 ∷ [])
unfolding body_of response_to_string is_prefix dec
injected_body = refl
