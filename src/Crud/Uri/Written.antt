-- ===== src/Crud/Uri/Written.antt =====
-- What is extracted from a URI that is written as base, entity and id, where the base has no special
-- characters.
use creeper_url_shortening_w.Crud.Uri.{
  BasePattern, literal, segment, behind_segment, non_empty, entity_at, id_behind, id_at,
  first_match, search_from, or_empty, extract_entity, extract_id,
}
use creeper_url_shortening_w.Prelude.Decimal.{AllDigits, dec, dec-AllDigits, dec-ne-nil}
use creeper_url_shortening_w.Prelude.Integer.{ℤ, pos, negsuc}
use creeper_url_shortening_w.Prelude.Stoi.{int_to_string}
use creeper_url_shortening_w.Prelude.Text.{Bytes, is_prefix}
use creeper_url_shortening_w.Prelude.{
  ◌≡◌, ◌≢◌, refl, sym, ap, ◌∙◌, true, false, [], ◌∷◌, ◌++◌, Option, some, ◌==◌, length, drop, arith,
  ◌+◌, append-nil,
}

-- A text that `[^/]+` matches as a whole.
abbrev pub NoSlash : Bytes → Type 0
NoSlash [] = Unit
NoSlash (c ∷ s) = (c ≢ b'/') × NoSlash s

abbrev pub IsSegment : Bytes → Type 0
IsSegment s = (s ≢ []) × NoSlash s

AllDigits-NoSlash : (s : Bytes) → AllDigits s → NoSlash s
AllDigits-NoSlash [] h = tt
AllDigits-NoSlash (c ∷ s) (h, h', hs) = (λ e. omega (arith, e, h), AllDigits-NoSlash s hs)

pub int_to_string-IsSegment : (id : ℤ) → IsSegment (int_to_string id)
unfolding int_to_string
int_to_string-IsSegment (pos n) = (dec-ne-nil n, AllDigits-NoSlash (dec n) (dec-AllDigits n))
int_to_string-IsSegment (negsuc n) =
    (λ e. cc e, (λ e. omega (arith, e), AllDigits-NoSlash (dec (n + 1)) (dec-AllDigits (n + 1))))

-- What may follow a segment.
abbrev Ends : Bytes → Type 0
Ends [] = Unit
Ends (c ∷ s) = c ≡ b'/'

segment-append : (s tail : Bytes) → NoSlash s → Ends tail → segment (s ++ tail) ≡ s
unfolding segment
segment-append [] [] h e = refl
segment-append [] (c ∷ tail) h e = let slash : c == b'/' ≡ true = ground arith in rw slash refl
segment-append (c ∷ s) tail (h, hs) e =
    let other : c == b'/' ≡ false = ground arith in
    rw other (ap (λ r. c ∷ r) (segment-append s tail hs e))

behind_segment-append : (s tail : Bytes) → NoSlash s → Ends tail → behind_segment (s ++ tail) ≡ tail
unfolding behind_segment
behind_segment-append [] [] h e = refl
behind_segment-append [] (c ∷ tail) h e =
    let slash : c == b'/' ≡ true = ground arith in rw slash refl
behind_segment-append (c ∷ s) tail (h, hs) e =
    let other : c == b'/' ≡ false = ground arith in rw other (behind_segment-append s tail hs e)

non_empty-some : (s : Bytes) → s ≢ [] → non_empty s ≡ some s
non_empty-some [] h = absurd (h refl)
non_empty-some (c ∷ s) h = refl

entity_at-append :
    (entity tail : Bytes)
    → IsSegment entity
    → Ends tail
    → entity_at (b'/' ∷ entity ++ tail) ≡ some entity
unfolding entity_at
entity_at-append entity tail (some_byte, h) e =
    ap non_empty (segment-append entity tail h e) ∙ non_empty-some entity some_byte

entity_at-all : (entity : Bytes) → IsSegment entity → entity_at (b'/' ∷ entity) ≡ some entity
entity_at-all entity h =
    ap (λ r. entity_at (b'/' ∷ r)) (sym (append-nil entity)) ∙ entity_at-append entity [] h tt

id_at-append :
    (entity id : Bytes)
    → IsSegment entity
    → IsSegment id
    → id_at (b'/' ∷ entity ++ b'/' ∷ id) ≡ some id
unfolding id_at id_behind
id_at-append entity id h k =
    ap (id_behind (entity ++ b'/' ∷ id)) (entity_at-append entity (b'/' ∷ id) h refl)
    ∙ ap entity_at (behind_segment-append entity (b'/' ∷ id) h.1 refl)
    ∙ entity_at-all id k

is_prefix-append : (a b : Bytes) → is_prefix a (a ++ b) ≡ true
unfolding is_prefix
is_prefix-append [] b = refl
is_prefix-append (c ∷ a) b =
    let same : c == c ≡ true = ground arith in rw same (is_prefix-append a b)

drop-length-append : (a b : Bytes) → drop (length a) (a ++ b) ≡ b
drop-length-append [] b = refl
drop-length-append (c ∷ a) b = drop-length-append a b

literal-append : (a b : Bytes) → literal a (a ++ b) ≡ b ∷ []
unfolding literal
literal-append a b = rw (is_prefix-append a b) (ap (λ r. r ∷ []) (drop-length-append a b))

search_from_first :
    (base : BasePattern) (at : Bytes → Option Bytes) (s group : Bytes)
    → first_match at (base s) ≡ some group
    → search_from base at s ≡ some group
unfolding search_from
search_from_first base at [] group e = e
search_from_first base at (c ∷ s) group e = rw (search_from, e) refl

search_from-append :
    (base : BasePattern) (base_uri : Bytes) (at : Bytes → Option Bytes) (rest group : Bytes)
    → ((s : Bytes) → base s ≡ literal base_uri s)
    → at rest ≡ some group
    → search_from base at (base_uri ++ rest) ≡ some group
unfolding first_match
search_from-append base base_uri at rest group plain e =
    search_from_first base at (base_uri ++ rest) group (
      ap (first_match at) (plain (base_uri ++ rest) ∙ literal-append base_uri rest)
      ∙ rw (first_match, e) refl)

pub extract_entity-written :
    (base : BasePattern) (base_uri entity : Bytes)
    → ((s : Bytes) → base s ≡ literal base_uri s)
    → IsSegment entity
    → extract_entity base (base_uri ++ b'/' ∷ entity) ≡ entity
unfolding extract_entity
extract_entity-written base base_uri entity plain h = ap or_empty (
    search_from-append base base_uri entity_at (b'/' ∷ entity) entity plain
      (entity_at-all entity h))

-- The entity and the id of a URI that is written as base, entity and id.
pub extract-written :
    (base : BasePattern) (base_uri entity id : Bytes)
    → ((s : Bytes) → base s ≡ literal base_uri s)
    → IsSegment entity
    → IsSegment id
    → (extract_entity base (base_uri ++ (b'/' ∷ (entity ++ b'/' ∷ id))) ≡ entity)
      × (extract_id base (base_uri ++ (b'/' ∷ (entity ++ b'/' ∷ id))) ≡ id)
unfolding extract_entity extract_id
extract-written base base_uri entity id plain h k =
    let rest : Bytes = b'/' ∷ (entity ++ b'/' ∷ id) in
    (
      ap or_empty (
          search_from-append base base_uri entity_at rest entity plain
            (entity_at-append entity (b'/' ∷ id) h refl)),
      ap or_empty
          (search_from-append base base_uri id_at rest id plain (id_at-append entity id h k)),
    )
