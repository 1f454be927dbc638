-- ===== src/Announce/First.antt =====
-- Which tracker `QueryAnnounceUrls` of announce.go takes its answer from.
use totorrent.Base.{
  ℕ, ◌≡◌, refl, subst, ap, ◌⊎◌, inl, inr, Bool, true, false, List, [], ◌∷◌, ◌++◌, Bytes, Option,
  none, some, All, length, ◌==◌, Bool-cases, arith,
}
use totorrent.Announce.{
  AnnounceUrlResponse, QueryResult, bad_request, failed, responded, is_success, usable_urls,
  query_loop, checked_answer, query_announce_urls, empty_response,
}

-- The client failed, the status code is no success, or the body was not decoded.
abbrev pub IsSkipped :
    (Bytes → QueryResult)
    → (Bytes → AnnounceUrlResponse → AnnounceUrlResponse × Bool)
    → Bytes
    → Type 0
IsSkipped query unmarshal url =
    (query url ≡ failed)
    ⊎ ((status : ℕ) × (encoded : Bytes) × (query url ≡ responded status encoded)
        × ((is_success status ≡ false)
            ⊎ ((body : AnnounceUrlResponse) × ((unmarshal encoded body).1 ≡ false))))

-- The first URL of `urls` that is not skipped answers with `r`.
pub record AnsweredFirst (query : Bytes → QueryResult)
    (unmarshal : Bytes → AnnounceUrlResponse → AnnounceUrlResponse × Bool) (urls : List Bytes)
    (r : AnnounceUrlResponse) : Type 0 where
  pub skipped : List Bytes
  pub url : Bytes
  pub rest : List Bytes
  pub status : ℕ
  pub encoded : Bytes
  pub body : AnnounceUrlResponse
  pub place : urls ≡ skipped ++ url ∷ rest
  pub all_skipped : All (IsSkipped query unmarshal) skipped
  pub answered : query url ≡ responded status encoded
  pub success : is_success status ≡ true
  pub decoded : unmarshal encoded body ≡ (r, true)

length-zero : (xs : Bytes) → (length xs == 0) ≡ true → xs ≡ []
length-zero [] h = refl
length-zero (x ∷ xs) h = ground arith

checked_answer-some :
    (o : Option (AnnounceUrlResponse × Bool)) (r : AnnounceUrlResponse)
    → checked_answer o ≡ (some r, none)
    → (o ≡ some (r, true)) × (r.failure_reason ≡ [])
unfolding checked_answer
checked_answer-some none r e = cc e
checked_answer-some (some (body, true)) r e = elim (Bool-cases (length body.failure_reason == 0)) [
  | inr h ↦ cc (rw h at e)
  | inl h ↦
      let same : body ≡ r = cc (rw h at e) in
      (
        ap (λ b. some (b, true)) same,
        subst (λ b. b.failure_reason ≡ []) same (length-zero body.failure_reason h),
      )
]
checked_answer-some (some (body, false)) r e = elim (Bool-cases (length body.failure_reason == 0)) [
  | inr h ↦ cc (rw h at e)
  | inl h ↦ cc (rw h at e)
]

data QuerySplit (q : QueryResult) : Type 0 where
  is_bad : q ≡ bad_request → QuerySplit q
  is_failed : q ≡ failed → QuerySplit q
  is_responded : (status : ℕ) (encoded : Bytes) → q ≡ responded status encoded → QuerySplit q

QueryResult-QuerySplit : (q : QueryResult) → QuerySplit q
QueryResult-QuerySplit bad_request = is_bad refl
QueryResult-QuerySplit failed = is_failed refl
QueryResult-QuerySplit (responded status encoded) = is_responded status encoded refl

module _ (query : Bytes → QueryResult)
    (unmarshal : Bytes → AnnounceUrlResponse → AnnounceUrlResponse × Bool) where
  skip :
      (url : Bytes) (urls : List Bytes) (r : AnnounceUrlResponse)
      → IsSkipped query unmarshal url
      → AnsweredFirst query unmarshal urls r
      → AnsweredFirst query unmarshal (url ∷ urls) r
  skip url urls r h a = record {
    skipped = url ∷ a.skipped;
    url = a.url;
    rest = a.rest;
    status = a.status;
    encoded = a.encoded;
    body = a.body;
    place = ap (◌∷◌ url) a.place;
    all_skipped = (h, a.all_skipped);
    answered = a.answered;
    success = a.success;
    decoded = a.decoded;
  }

  query_loop-AnsweredFirst :
      (urls : List Bytes) (body r : AnnounceUrlResponse)
      → query_loop query unmarshal urls body ≡ some (r, true)
      → AnsweredFirst query unmarshal urls r
  unfolding query_loop
  query_loop-AnsweredFirst [] body r e = cc e
  query_loop-AnsweredFirst (url ∷ urls) body r e = elim (QueryResult-QuerySplit (query url)) [
    | is_bad n ↦ cc (rw (n, query_loop) at e)
    | is_failed n ↦
        skip url urls r (inl n) (query_loop-AnsweredFirst urls body r (rw (n, query_loop) at e))
    | is_responded status encoded n ↦ elim (Bool-cases (is_success status)) [
      | inl s ↦ elim (Bool-cases (unmarshal encoded body).1) [
        | inl d ↦ record {
          skipped = [];
          url = url;
          rest = urls;
          status = status;
          encoded = encoded;
          body = body;
          place = refl;
          all_skipped = tt;
          answered = n;
          success = s;
          decoded = cc (rw (n, query_loop, s, d) at e);
        }
        | inr d ↦ skip url urls r (inr (status, encoded, n, inr (body, d))) (
            query_loop-AnsweredFirst urls (unmarshal encoded body).0 r
              (rw (n, query_loop, s, d) at e))
      ]
      | inr s ↦
          skip url urls r (inr (status, encoded, n, inl s))
            (query_loop-AnsweredFirst urls body r (rw (n, query_loop, s) at e))
    ]
  ]

  -- Where `QueryAnnounceUrls` returns a response without an error, that response has no failure
  -- reason and is decoded from the answer, with a status code from 100 to 299, of the first usable
  -- URL that did not fail; the URLs before it failed to answer, to succeed or to be decoded.
  pub query_announce_urls-AnsweredFirst :
      (urls : List Bytes) (r : AnnounceUrlResponse)
      → query_announce_urls query unmarshal urls ≡ (some r, none)
      → AnsweredFirst query unmarshal (usable_urls urls) r × (r.failure_reason ≡ [])
  unfolding query_announce_urls checked_answer
  query_announce_urls-AnsweredFirst urls r e = elim (Bool-cases (length (usable_urls urls) == 0)) [
    | inl h ↦ cc (rw h at e)
    | inr h ↦
        let found =
          checked_answer-some (query_loop query unmarshal (usable_urls urls) empty_response) r
            (rw h at e) in
        (query_loop-AnsweredFirst (usable_urls urls) empty_response r found.0, found.1)
  ]
