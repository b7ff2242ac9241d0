-- ===== src/Tests/Urls.antt =====
-- The shortening handler over the fakes.
use creeper_url_shortening_w.Http.{Request}
use creeper_url_shortening_w.Prelude.Assoc.{Assoc}
use creeper_url_shortening_w.Prelude.Assoc
use creeper_url_shortening_w.Prelude.Text.{Bytes, codes}
use creeper_url_shortening_w.Prelude.{
  ℕ, ◌+◌, ◌*◌, ◌%◌, ◌^◌, ◌≡◌, ◌↔◌, refl, true, [], ◌∷◌, ◌++◌, none, length, arith,
}
use creeper_url_shortening_w.Shorten
use creeper_url_shortening_w.Shorten.{ShortenRequestHandler}
use creeper_url_shortening_w.Shorten.Fakes.{fake_db, fake_redis}
use creeper_url_shortening_w.Shorten.Base62.{base62_encode}
use creeper_url_shortening_w.Shorten.Base62.Laws.{
  All, is_base62, base62_encode-All, length-base62_encode,
}
use creeper_url_shortening_w.Shorten.Base62.Collisions.{
  low_digits, base62_encode-low_digits, base62_encode-eq_iff,
}

encodings :
    (base62_encode 0 ≡ codes "000000")
    × (base62_encode 61 ≡ codes "00000Z")
    × (base62_encode (62 ^ 6 + 1) ≡ codes "100000")
unfolding base62_encode
encodings = (refl, refl, refl)

-- A stand-in for `std::hash`: a polynomial in the bytes.
poly : Bytes → ℕ
poly [] = 7
poly (c ∷ s) = (poly s * 257 + c) % 2 ^ 64

abbrev handler : ShortenRequestHandler
handler = record {
  base_uri = codes "/shorten";
  redis_client = fake_redis;
  db_client = fake_db;
  hash = poly;
  shorten_html = none;
}

abbrev post : Request
post = record {
  method = codes "POST";
  uri = codes "/shorten";
  version = codes "HTTP/1.1";
  headers = [];
  body = codes "http://example.com/";
  valid = true;
}

abbrev initial : Shorten.Stores (Assoc Bytes) (Assoc Bytes)
initial = record { redis_ = []; db_ = [] }

abbrev code : Bytes
code = base62_encode (poly (codes "http://example.com/"))

abbrev get_it : Request
get_it = record post { method = codes "GET"; uri = codes "/shorten" ++ b'/' ∷ code; body = [] }

posted : (Shorten.handle_post_request handler post initial).1 ≡ Shorten.shortened post code
unfolding Shorten.handle_post_request Shorten.candidate_short Shorten.salt Assoc.lookup
posted = refl

length-base62_encode_example : length (base62_encode 61) ≡ 6
length-base62_encode_example = length-base62_encode 61

base62_encode-All_example : All is_base62 (base62_encode 61)
base62_encode-All_example = base62_encode-All 61

base62_encode-eq_iff_example :
    (base62_encode (62 ^ 5) ≡ base62_encode (62 ^ 6 + 62 ^ 5))
    ↔ (62 ^ 5 % 62 ^ 6 ≡ (62 ^ 6 + 62 ^ 5) % 62 ^ 6)
base62_encode-eq_iff_example =
    base62_encode-eq_iff (62 ^ 5) (62 ^ 6 + 62 ^ 5) (omega arith) (omega arith)

base62_encode-low_digits_example : base62_encode (62 ^ 5) ≡ low_digits 6 (62 ^ 5)
base62_encode-low_digits_example = base62_encode-low_digits (62 ^ 5) (omega arith)
