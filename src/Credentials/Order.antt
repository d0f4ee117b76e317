-- ===== src/Credentials/Order.antt =====
-- The order of the calls of a rotation: the old token goes when the new one has its key.
use nexusapi_enterprise.Prelude.{ℕ, zero, suc, ◌≤◌, ◌<◌, ◌≡◌, ◌≢◌, ◌⊎◌, List, ◌∷◌, Result, ok, err}
use nexusapi_enterprise.Newapi.Classify.{UpstreamError}
use nexusapi_enterprise.Credentials.{MemberCred}
use nexusapi_enterprise.Credentials.Tokens.{
  TokenRequest, posted, deleted, TokenApi, reveal_token_key,
}

-- A number of POSTs for a token with the name.
unfoldable pub posts : ℕ → List ℕ → List TokenRequest → List TokenRequest
posts zero name calls = calls
posts (suc n) name calls = posted name ∷ posts n name calls

module _ (api : TokenApi) (cred : MemberCred) (old : ℕ) (name : List ℕ)
    (calls : List TokenRequest) where
  -- The POSTs for the name: none if a token with it was adopted, and as many as the client tries at
  -- most.
  abbrev pub IsMade : List TokenRequest → Type 0
  IsMade made = (n : ℕ) × (n ≤ suc api.max_retries) × (made ≡ posts n name calls)

  -- What became of the old token, after the new one was there.
  abbrev pub Ended : ℕ → List TokenRequest → List TokenRequest → Type 0
  Ended id made after =
      (((old ≡ 0) ⊎ (old ≡ id)) × (after ≡ made))
      ⊎ ((0 < old) × (old ≢ id) × (after ≡ deleted old ∷ made))

  pub data Rotated : Result UpstreamError (ℕ × List ℕ) × List TokenRequest → Type 0 where
    failed : (u : UpstreamError) (made : List TokenRequest) → IsMade made → Rotated (err u, made)
    replaced :
        (id : ℕ) (key : List ℕ) (made after : List TokenRequest)
        → IsMade made
        → reveal_token_key api cred id made ≡ ok key
        → Ended id made after
        → Rotated (ok (id, key), after)
