-- ===== src/Shorten/Mappings.antt =====
-- No request changes a mapping of the table, and the cache holds nothing that the table does not.
use creeper_url_shortening_w.Http.{Request, Response}
use creeper_url_shortening_w.Prelude.Text.{Bytes, str_eq, str_eq_iff}
use creeper_url_shortening_w.Prelude.{
  ℕ, zero, suc, ◌+◌, ◌≡◌, refl, sym, ap, ◌∙◌, ◌⊎◌, inl, inr, none, some, arith, length, Bool-cases,
  Option-cases,
}
use creeper_url_shortening_w.Shorten.Base62.{short_url_length}
use creeper_url_shortening_w.Shorten.Base62.Laws.{length-base62_encode}
use creeper_url_shortening_w.Shorten
use creeper_url_shortening_w.Shorten.{ShortenRequestHandler}

module _ (self : ShortenRequestHandler) where
  open self use {db_client.{Db, store, lookup, view}, redis_client.{Cache, get, set, held}}

  -- The table of the second state has every mapping of the first.
  pub record Extends (d e : Db) : Type 0 where
    pub at : (k v : Bytes) → view d k ≡ some v → view e k ≡ some v

  pub Extends-refl : (d : Db) → Extends d d
  Extends-refl d = record { at = λ k v h. h }

  pub Extends-trans : {d e f : Db} → Extends d e → Extends e f → Extends d f
  Extends-trans a b = record { at = λ k v h. b.at k v (a.at k v h) }

  pub Extends-lookup : (d : Db) (k : Bytes) → Extends d (lookup d k).0
  Extends-lookup d k = record { at = λ j v h. self.db_client.lookup_keeps d k j ∙ h }

  pub Extends-store : (d : Db) (k v : Bytes) → view d k ≡ none → Extends d (store d k v).0
  Extends-store d k v free = record {
    at = λ j w h. elim (Bool-cases (store d k v).1) [
      | inl stored ↦ ground (arith, self.db_client.store_writes d k v j stored, str_eq_iff k j)
      | inr failed ↦ self.db_client.store_fails d k v j failed ∙ h
    ];
  }

  -- The cache holds nothing that the table does not.
  pub record IsCoherent (s : Shorten.Stores Db Cache) : Type 0 where
    pub at : (k v : Bytes) → held s.redis_ k ≡ some v → view s.db_ k ≡ some v

  -- What a POST does, whatever the table held.
  pub record IsPosted (long_url : Bytes) (s : Shorten.Stores Db Cache)
      (r : Shorten.Stores Db Cache × Response) : Type 0 where
    pub extends : Extends s.db_ r.0.db_
    pub cache : r.0.redis_ ≡ s.redis_
    pub status : (r.1.status_code ≡ 200) ⊎ (r.1.status_code ≡ 500)
    pub mapped : r.1.status_code ≡ 200 → view r.0.db_ r.1.body ≡ some long_url
    pub short : r.1.status_code ≡ 200 → length r.1.body ≡ short_url_length

  save-IsPosted :
      (request : Request) (code : Bytes) (s : Shorten.Stores Db Cache)
      → length code ≡ short_url_length
      → view s.db_ code ≡ none
      → IsPosted request.body s (Shorten.save self request code s)
  unfolding Shorten.save Shorten.error_500 Shorten.shortened
  save-IsPosted request code s six free =
      let grown = Extends-store s.db_ code request.body free in
      elim (Bool-cases (store s.db_ code request.body).1) [
        | inl stored ↦ rw stored (record {
          extends = grown;
          cache = refl;
          status = inl refl;
          mapped = λ _.
              self.db_client.store_writes s.db_ code request.body code stored
              ∙ rw ((str_eq_iff code code).1 refl);
          short = λ _. six;
        })
        | inr failed ↦ rw failed (record {
          extends = grown;
          cache = refl;
          status = inr refl;
          mapped = λ e. absurd (omega arith);
          short = λ e. absurd (omega arith);
        })
      ]

  -- a POST after a call of `lookup` that changed nothing that can be seen
  looked-IsPosted :
      (long_url code : Bytes) (s : Shorten.Stores Db Cache) (r : Shorten.Stores Db Cache × Response)
      → IsPosted long_url (record s { db_ = (lookup s.db_ code).0 }) r
      → IsPosted long_url s r
  looked-IsPosted long_url code s r h = record {
    extends = Extends-trans (Extends-lookup s.db_ code) h.extends;
    cache = h.cache;
    status = h.status;
    mapped = h.mapped;
    short = h.short;
  }

  length-candidate_short :
      (long_url : Bytes) (attempt : ℕ)
      → length (Shorten.candidate_short self long_url attempt) ≡ short_url_length
  unfolding Shorten.candidate_short
  length-candidate_short long_url attempt =
      length-base62_encode (self.hash (Shorten.salt long_url attempt))

  pub attempts-IsPosted :
      (left attempt : ℕ) (request : Request) (s : Shorten.Stores Db Cache)
      → IsPosted request.body s (Shorten.attempts self left attempt request s)
  unfolding Shorten.attempts Shorten.error_500 Shorten.shortened
  attempts-IsPosted zero attempt request s = record {
    extends = Extends-refl s.db_;
    cache = refl;
    status = inr refl;
    mapped = λ e. absurd (omega arith);
    short = λ e. absurd (omega arith);
  }
  attempts-IsPosted (suc left) attempt request s =
      let code = Shorten.candidate_short self request.body attempt in
      let answers = self.db_client.lookup_answers s.db_ code in
      let six = length-candidate_short request.body attempt in
      looked-IsPosted request.body code s _ (elim (Option-cases (lookup s.db_ code).1) [
        | inl e ↦
            rw (e, Shorten.attempts)
              (save-IsPosted request code _ six
                (self.db_client.lookup_keeps s.db_ code code ∙ sym answers ∙ e))
        | inr (existing, e) ↦ elim (Bool-cases (str_eq existing request.body)) [
          | inl same ↦
              rw (e, Shorten.attempts)
                (rw same (record {
                  extends = Extends-refl _;
                  cache = refl;
                  status = inl refl;
                  mapped = λ _.
                      self.db_client.lookup_keeps s.db_ code code
                      ∙ sym answers
                      ∙ e
                      ∙ ap some ((str_eq_iff existing request.body).0 same);
                  short = λ _. six;
                }))
          | inr other ↦
              rw (e, Shorten.attempts) (rw other (attempts-IsPosted left (attempt + 1) request _))
        ]
      ])

  pub handle_post_request-IsPosted :
      (request : Request) (s : Shorten.Stores Db Cache)
      → IsPosted request.body s (Shorten.handle_post_request self request s)
  unfolding Shorten.handle_post_request
  handle_post_request-IsPosted request s = attempts-IsPosted 5 0 request s
