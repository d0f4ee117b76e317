-- ===== src/Credentials/Tokens.antt =====
-- The tokens of an organization in new-api: CreateToken, RevealTokenKey and RotateToken of
-- adapter/newapi/adapter.go. The answers of the endpoints are functions of the requests made before,
-- the latest first. The client sends a POST again after an error that is retryable. Whether a token
-- could be deleted is only logged.
use nexusapi_enterprise.Prelude.{
  ℕ, zero, suc, not, ◌&&◌, Option, none, some, List, [], ◌∷◌, ltb, ◌==◌, same_text, if◌then◌else◌,
  Result, ok, err,
}
use nexusapi_enterprise.Newapi.Classify.{
  UpstreamError, retryable_class, retryable, err_circuit_open,
}
use nexusapi_enterprise.Credentials.{MemberCred, CallError, upstream}

-- A POST for a token with a name, and a call that deletes a token.
pub data TokenRequest : Type 0 where
  posted : List ℕ → TokenRequest
  deleted : ℕ → TokenRequest

-- The first page of GET /api/token/ (names and ids), one POST /api/token/, and the key; what ends the
-- client's call before a request (the breaker, the limiter or the wait for the next attempt).
pub record TokenApi : Type 0 where
  pub max_retries : ℕ
  pub ends_call : List TokenRequest → Option UpstreamError
  pub token_list : MemberCred → List TokenRequest → Result UpstreamError (List (List ℕ × ℕ))
  pub post_token : MemberCred → List ℕ → List TokenRequest → Result UpstreamError (Unit {0})
  pub token_key : MemberCred → ℕ → List TokenRequest → Result UpstreamError (List ℕ)

unfoldable pub named : List ℕ → List (List ℕ × ℕ) → Option ℕ
named name [] = none
named name ((n, id) ∷ others) =
    let rest = named name others in if same_text n name then some id else rest

abbrev pub found_in :
    List ℕ → Result UpstreamError (List (List ℕ × ℕ)) → Result UpstreamError (Option ℕ)
found_in name (err e) = err e
found_in name (ok tokens) = ok (named name tokens)

-- findTokenByName
unfoldable pub find_token_by_name :
    TokenApi → MemberCred → List ℕ → List TokenRequest → Result UpstreamError (Option ℕ)
find_token_by_name api cred name calls = found_in name (api.token_list cred calls)

abbrev pub created_not_found : UpstreamError
created_not_found = record { http_status = 0; platform_code = 50202; class = retryable_class }

abbrev pub no_key : UpstreamError
no_key = record { http_status = 0; platform_code = 50203; class = retryable_class }

abbrev pub located : Result UpstreamError (Option ℕ) → Result UpstreamError ℕ
located (err e) = err e
located (ok none) = err created_not_found
located (ok (some id)) = ok id

-- client.do for POST /api/token/, with the attempts that are left and the last error.
unfoldable pub post_attempts :
    TokenApi
    → MemberCred
    → List ℕ
    → ℕ
    → UpstreamError
    → List TokenRequest
    → Result UpstreamError (Unit {0}) × List TokenRequest
post_attempts api cred name zero last calls = (err last, calls)
post_attempts api cred name (suc left) last calls = elim (api.ends_call calls) [
  | some u ↦ (err u, calls)
  | none ↦ elim (api.post_token cred name calls) [
    | ok done ↦ (ok done, posted name ∷ calls)
    | err u ↦
        let again = post_attempts api cred name left u (posted name ∷ calls) in
        if retryable u then again else (err u, posted name ∷ calls)
  ]
]

abbrev pub post_call :
    TokenApi
    → MemberCred
    → List ℕ
    → List TokenRequest
    → Result UpstreamError (Unit {0}) × List TokenRequest
post_call api cred name calls =
    post_attempts api cred name (suc api.max_retries) err_circuit_open calls

abbrev pub post_then_find :
    TokenApi
    → MemberCred
    → List ℕ
    → Result UpstreamError (Unit {0}) × List TokenRequest
    → Result UpstreamError ℕ × List TokenRequest
post_then_find api cred name (err e, calls) = (err e, calls)
post_then_find api cred name (ok done, calls) =
    (located (find_token_by_name api cred name calls), calls)

abbrev pub adopt_or_post :
    TokenApi
    → MemberCred
    → List ℕ
    → List TokenRequest
    → Result UpstreamError (Option ℕ)
    → Result UpstreamError ℕ × List TokenRequest
adopt_or_post api cred name calls (err e) = (err e, calls)
adopt_or_post api cred name calls (ok (some id)) = (ok id, calls)
adopt_or_post api cred name calls (ok none) =
    post_then_find api cred name (post_call api cred name calls)

-- CreateToken: a token with the name is adopted.
unfoldable pub create_token :
    TokenApi → MemberCred → List ℕ → List TokenRequest → Result UpstreamError ℕ × List TokenRequest
create_token api cred name calls =
    adopt_or_post api cred name calls (find_token_by_name api cred name calls)

abbrev pub key_or_error : Result UpstreamError (List ℕ) → Result UpstreamError (List ℕ)
key_or_error (err e) = err e
key_or_error (ok []) = err no_key
key_or_error (ok (k ∷ ks)) = ok (k ∷ ks)

-- RevealTokenKey
unfoldable pub reveal_token_key :
    TokenApi → MemberCred → ℕ → List TokenRequest → Result UpstreamError (List ℕ)
reveal_token_key api cred id calls = key_or_error (api.token_key cred id calls)

abbrev pub keyed :
    ℕ
    → List TokenRequest
    → Result UpstreamError (List ℕ)
    → Result UpstreamError (ℕ × List ℕ) × List TokenRequest
keyed id calls (err e) = (err e, calls)
keyed id calls (ok key) = (ok (id, key), calls)

-- The key of a token that was created or adopted.
abbrev pub with_key :
    TokenApi
    → MemberCred
    → Result UpstreamError ℕ × List TokenRequest
    → Result UpstreamError (ℕ × List ℕ) × List TokenRequest
with_key api cred (err e, calls) = (err e, calls)
with_key api cred (ok id, calls) = keyed id calls (reveal_token_key api cred id calls)

-- CreateToken and RevealTokenKey
unfoldable pub create_and_reveal :
    TokenApi
    → MemberCred
    → List ℕ
    → List TokenRequest
    → Result UpstreamError (ℕ × List ℕ) × List TokenRequest
create_and_reveal api cred name calls = with_key api cred (create_token api cred name calls)

-- The old token is deleted when the new one has its key; that this fails is only logged.
abbrev pub delete_old :
    ℕ
    → Result UpstreamError (ℕ × List ℕ) × List TokenRequest
    → Result UpstreamError (ℕ × List ℕ) × List TokenRequest
delete_old old (err e, calls) = (err e, calls)
delete_old old (ok (id, key), calls) =
    if ltb 0 old && not (old == id)
    then (ok (id, key), deleted old ∷ calls)
    else (ok (id, key), calls)

-- RotateToken
unfoldable pub rotate_token :
    TokenApi
    → MemberCred
    → ℕ
    → List ℕ
    → List TokenRequest
    → Result UpstreamError (ℕ × List ℕ) × List TokenRequest
rotate_token api cred old name calls = delete_old old (create_and_reveal api cred name calls)

abbrev pub as_call :
    {A : Type 0}
    → Result UpstreamError A × List TokenRequest
    → Result CallError A × List TokenRequest
as_call (ok v, calls) = (ok v, calls)
as_call (err u, calls) = (err (upstream u), calls)
