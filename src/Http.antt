-- ===== src/Http.antt =====
-- include/http_header.h and src/http_header.cc: requests, responses and their text form.
pub mod Framing
use creeper_url_shortening_w.Prelude.Decimal.{dec}
use creeper_url_shortening_w.Prelude.Text.{Bytes, codes}
use creeper_url_shortening_w.Prelude.{ℕ, Bool, List, [], ◌∷◌, ◌++◌, length}

abbrev pub crlf : Bytes
crlf = 13 ∷ 10 ∷ []

abbrev pub http_version : Bytes
http_version = codes "HTTP/1.1"

pub record Header : Type 0 where
  pub name : Bytes
  pub value : Bytes

pub record Request : Type 0 where
  pub method : Bytes
  pub uri : Bytes
  pub version : Bytes
  pub headers : List Header
  pub body : Bytes
  pub valid : Bool

-- A string that a handler leaves unset is empty; every handler sets `status_code`.
pub record Response : Type 0 where
  pub version : Bytes
  pub status_code : ℕ
  pub status_message : Bytes
  pub headers : List Header
  pub body : Bytes

abbrev pub header : Bytes → Bytes → Header
header name value = record { name = name; value = value }

abbrev pub content_type : Bytes → List Header
content_type kind = header (codes "Content-Type") kind ∷ []

-- One entry of `STOCK_RESPONSE`.
abbrev stock : ℕ → Bytes → Bytes → Response
stock status message body = record {
  version = http_version;
  status_code = status;
  status_message = message;
  headers = content_type (codes "text/plain");
  body = body;
}

abbrev pub stock_400 : Response
stock_400 = stock 400 (codes "Bad Request") (codes "400 Bad Request")

abbrev pub stock_404 : Response
stock_404 = stock 404 (codes "Not Found") (codes "404 Not Found")

abbrev pub stock_405 : Response
stock_405 = stock 405 (codes "Method Not Allowed") (codes "405 Method Not Allowed")

abbrev pub stock_415 : Response
stock_415 = stock 415 (codes "Unsupported Media Type") (codes "415 Unsupported Media Type")

abbrev pub stock_500 : Response
stock_500 = stock 500 (codes "Internal Server Error") (codes "500 Internal Server Error")

-- The loop over the headers, in both `to_string`.
unfoldable pub header_lines : List Header → Bytes
header_lines [] = []
header_lines (h ∷ hs) = h.name ++ (codes ": " ++ (h.value ++ (crlf ++ header_lines hs)))

unfoldable pub request_to_string : Request → Bytes
unfolding header_lines
request_to_string r =
    r.method
    ++ (codes " "
        ++ (r.uri ++ (codes " " ++ (r.version ++ (crlf ++ (header_lines r.headers ++ crlf))))))

unfoldable pub response_to_string : Response → Bytes
unfolding header_lines
response_to_string r =
    codes "HTTP/1.1 "
    ++ (dec r.status_code
        ++ (codes " "
            ++ (r.status_message
                ++ (crlf
                    ++ (header_lines r.headers
                        ++ (codes "Content-Length: "
                            ++ (dec (length r.body) ++ (crlf ++ (crlf ++ r.body)))))))))
