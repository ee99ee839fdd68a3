-- ===== src/Configuration/ApiKeys.antt =====
-- The `/settings/api-keys` handlers of api/v1/settings/router.py. The provider is text from the
-- path; `PROVIDERS` are the texts of `GenAiProvider`.
use onecrawler_backend.Prelude.{
  ℕ, String, Bool, true, false, not, ◌&&◌, ◌||◌, Option, none, some, List, [], ◌∷◌, map, ◌==◌,
  str_eq, str_append, is_some, if◌then◌else◌,
}
use onecrawler_backend.Tables.{find, update, delete, insert}
use onecrawler_backend.Exec.{Exec, pure, gets, raise_if, modify, ◌>>=◌, ◌>>◌}
use onecrawler_backend.Models.{Uuid, ProviderApiKey}
use onecrawler_backend.Backend.{Backend}

abbrev pub providers : List String
providers = "openai" ∷ "google" ∷ "ollama" ∷ []

abbrev pub is_provider : String → List String → Bool
is_provider p [] = false
is_provider p (q ∷ qs) = str_eq p q || is_provider p qs

-- the primary key
abbrev pub is_key : Uuid → String → ProviderApiKey → Bool
is_key user_id provider k = k.user_id == user_id && str_eq k.provider provider

pub record ApiKeyOut : Type 0 where
  pub provider : String
  pub has_key : Bool
  pub updated_at : Option ℕ

abbrev pub updated_at_of : Option ProviderApiKey → Option ℕ
updated_at_of none = none
updated_at_of (some k) = some k.updated_at

-- a provider of the list, with the user's row for it
abbrev pub key_out : Uuid → Backend → String → ApiKeyOut
key_out user_id s provider =
    let row = find (is_key user_id provider) s.provider_api_keys in
    record { provider = provider; has_key = is_some row; updated_at = updated_at_of row }

unfoldable pub list_provider_api_keys : Uuid → Exec Backend (List ApiKeyOut)
unfolding ◌>>=◌
list_provider_api_keys user_id = gets (λ s. map (key_out user_id s) providers)

abbrev pub keyed : String → ℕ → ProviderApiKey → ProviderApiKey
keyed api_key now k = record k { api_key = api_key; updated_at = now }

-- The row of the primary key is added, or overwritten.
abbrev pub put_key : Uuid → String → String → ℕ → List ProviderApiKey → List ProviderApiKey
put_key user_id provider api_key now rows =
    if is_some (find (is_key user_id provider) rows)
    then update (is_key user_id provider) (keyed api_key now) rows
    else insert
        (record { user_id = user_id; provider = provider; api_key = api_key; updated_at = now })
        rows

unfoldable pub set_provider_api_key : Uuid → String → String → ℕ → Exec Backend ApiKeyOut
unfolding ◌>>=◌
set_provider_api_key user_id provider api_key now = do
  raise_if (not (is_provider provider providers)) 404 (str_append "Unknown provider: " provider)
  modify (λ s. record s {
    provider_api_keys = put_key user_id provider api_key now s.provider_api_keys;
  })
  pure (record { provider = provider; has_key = true; updated_at = some now })

unfoldable pub clear_provider_api_key : Uuid → String → Exec Backend (Unit {0})
unfolding ◌>>=◌
clear_provider_api_key user_id provider = do
  raise_if (not (is_provider provider providers)) 404 (str_append "Unknown provider: " provider)
  modify
      (λ s. record s { provider_api_keys = delete (is_key user_id provider) s.provider_api_keys })
