-- ===== src/Configuration/Kept.antt =====
-- What one request on the settings leaves for the next, and the figures of the dashboard.
use onecrawler_backend.Prelude.{
  ℕ, ◌+◌, ◌≡◌, ◌∙◌, refl, sym, ap, inl, inr, true, false, none, some, String, List, [], ◌∷◌, arith,
  ==_refl, eq_refl, Option-cases,
}
use mathlib.Core.Option
use onecrawler_backend.Tables.{find, insert}
use onecrawler_backend.Tables.Laws.{find-append, find-update, find-delete}
use onecrawler_backend.Exec.{Result, ok, err}
use onecrawler_backend.Models.{
  Uuid, CrawlJob, CrawlSettingsTemplate, ProviderApiKey, GenAiProvider, GenAiSettingsIn,
  provider_text,
}
use onecrawler_backend.Worker.Settings.{genai_key}
use onecrawler_backend.Backend.{Backend}
use onecrawler_backend.Configuration.Templates.{
  CrawlTemplateIn, create_crawl_template, is_named, already_exists, new_template,
}
use onecrawler_backend.Configuration.ApiKeys.{
  is_key, put_key, keyed, key_out, is_provider, providers, set_provider_api_key,
  clear_provider_api_key,
}
use onecrawler_backend.Configuration.Dashboard.{overview}

-- A template's name is taken once it was given: a second template of the user under the name is
-- refused and nothing is written, whatever it holds.
create_crawl_template-twice :
    (user : Uuid) (payload other : CrawlTemplateIn) (id id' : Uuid) (t t' : ℕ → ℕ)
    (s after : Backend) (template : CrawlSettingsTemplate)
    → create_crawl_template user payload id t s ≡ (ok template, after)
    → other.name ≡ payload.name
    → create_crawl_template user other id' t' after ≡ (err 409 (already_exists other.name), after)
unfolding create_crawl_template
create_crawl_template-twice user payload other id id' t t' s after template e same =
    elim (Option-cases (find (is_named user payload.name) s.templates)) [
      | inr (x, f) ↦ absurd (ground (arith, f, e))
      | inl n ↦
          let kept : after.templates ≡ insert (new_template user payload id t) s.templates =
            ap (λ (p : Result CrawlSettingsTemplate × Backend). p.1.templates) (sym e) ∙ rw n in
          let found : find (is_named user other.name) after.templates
              ≡ some (new_template user payload id t) =
            rw (same, kept)
              (find-append (is_named user payload.name) s.templates
                  (new_template user payload id t ∷ []) n
                ∙ rw (==_refl user, eq_refl payload.name)) in
          rw found
    ]

-- The row that a key's write leaves.
put_found :
    (user : Uuid) (provider api_key : String) (now : ℕ) (rows : List ProviderApiKey)
    → (k : ProviderApiKey) × (find (is_key user provider) (put_key user provider api_key now rows)
        ≡ some k)
      × (k.api_key ≡ api_key)
      × (k.updated_at ≡ now)
put_found user provider api_key now rows = elim (Option-cases (find (is_key user provider) rows)) [
  | inl n ↦
      let added : ProviderApiKey = record {
        user_id = user;
        provider = provider;
        api_key = api_key;
        updated_at = now;
      } in
      let found = find-append (is_key user provider) rows (added ∷ []) n in
      (added, rw n (found ∙ rw (==_refl user, eq_refl provider)), refl, refl)
  | inr (k, f) ↦ (
    keyed api_key now k,
    rw f (
        find-update (is_key user provider) (keyed api_key now) rows (λ r h. h)
        ∙ ap (Option.map (keyed api_key now)) f),
    refl,
    refl,
  )
]

-- Every provider of the requests has a key's place.
provider_text-is_provider : (p : GenAiProvider) → is_provider (provider_text p) providers ≡ true
provider_text-is_provider GenAiProvider.openai = refl
provider_text-is_provider GenAiProvider.google = refl
provider_text-is_provider GenAiProvider.ollama = refl

-- Right after a user's key for a provider was set the list says so, with the time; right after it
-- was cleared the list says that there is none.
pub set_clear_api_key :
    (user : Uuid) (provider api_key : String) (now : ℕ) (s : Backend)
    → is_provider provider providers ≡ true
    → let set = (set_provider_api_key user provider api_key now s).1 in
      let cleared = (clear_provider_api_key user provider set).1 in
      (key_out user set provider
        ≡ record { provider = provider; has_key = true; updated_at = some now })
      × (key_out user cleared provider
          ≡ record { provider = provider; has_key = false; updated_at = none })
unfolding set_provider_api_key clear_provider_api_key
set_clear_api_key user provider api_key now s known =
    let (k, found, _, time) = put_found user provider api_key now s.provider_api_keys in
    let gone =
      find-delete (is_key user provider) (put_key user provider api_key now s.provider_api_keys) in
    rw known (rw (found, time), rw gone)

-- A job's settings without a key of their own are built with the key that the user has set for
-- the provider, whatever was stored before, and with none once it is cleared.
genai_key-set_clear :
    (user : Uuid) (g : GenAiSettingsIn) (api_key : String) (now : ℕ) (s : Backend)
    → g.api_key ≡ none
    → let set = (set_provider_api_key user (provider_text g.provider) api_key now s).1 in
      let cleared = (clear_provider_api_key user (provider_text g.provider) set).1 in
      (genai_key set user g ≡ some api_key) × (genai_key cleared user g ≡ none)
unfolding set_provider_api_key clear_provider_api_key genai_key
genai_key-set_clear user g api_key now s without =
    let known = provider_text-is_provider g.provider in
    let (k, found, same, _) =
      put_found user (provider_text g.provider) api_key now s.provider_api_keys in
    let gone =
      find-delete (is_key user (provider_text g.provider))
        (put_key user (provider_text g.provider) api_key now s.provider_api_keys) in
    rw (without, known) (rw (found, same), rw gone)

-- The figures by status add up to the total.
pub overview-total :
    (user : Uuid) (jobs : List CrawlJob)
    → let o = overview user jobs in
      o.job_counts.queued + o.job_counts.running + o.job_counts.completed + o.job_counts.failed
        + o.job_counts.cancelled
      ≡ o.total_jobs
unfolding overview
overview-total user [] = omega arith
overview-total user (j ∷ jobs) = ground (arith, overview-total user jobs)
