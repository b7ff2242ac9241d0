-- ===== src/Shorten/Base62.antt =====
-- `ShortenRequestHandler::base62_encode`. `std::hash<std::string>` is up to the implementation: its
-- value, a `size_t`, is the argument `num` here.
pub mod Laws
pub mod Collisions
use creeper_url_shortening_w.Prelude.Text.{Bytes, codes}
use creeper_url_shortening_w.Prelude.{
  ℕ, zero, suc, ◌+◌, ◌/◌, ◌%◌, [], ◌∷◌, ◌++◌, ◌==◌, ltb, length, get_or, take, if◌then◌else◌,
}

abbrev pub short_url_length : ℕ
short_url_length = 6

abbrev pub base62_chars : Bytes
base62_chars = codes "0123456789abcdefghijklmnopqrstuvwxyzABCDEFGHIJKLMNOPQRSTUVWXYZ"

-- `BASE62_CHARS[i]`
unfoldable pub base62_char : ℕ → ℕ
base62_char i = get_or base62_chars i 0

-- `while (num > 0)`, on fuel
unfoldable pub convert : ℕ → ℕ → Bytes → Bytes
convert zero num base62_url = base62_url
convert (suc fuel) num base62_url =
    let rest = convert fuel (num / 62) (base62_url ++ base62_char (num % 62) ∷ []) in
    if num == 0 then base62_url else rest

-- `while (base62_url.length() < SHORT_URL_LENGTH)`, on fuel
unfoldable pub pad : ℕ → Bytes → Bytes
pad zero base62_url = base62_url
pad (suc fuel) base62_url =
    let rest = pad fuel (b'0' ∷ base62_url) in
    if ltb (length base62_url) short_url_length then rest else base62_url

-- Each round of the first loop divides `num` by 62 and each round of the second adds a byte, so
-- `num + 1` and 6 are enough fuel.
unfoldable pub base62_encode : ℕ → Bytes
unfolding convert pad base62_char
base62_encode num = take short_url_length (pad short_url_length (convert (suc num) num []))
