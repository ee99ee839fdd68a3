-- ===== src/Configuration/Templates.antt =====
-- The `/settings/templates` handlers of api/v1/settings/router.py.
use onecrawler_backend.Prelude.{
  ℕ, String, Bool, not, ◌&&◌, Option, List, map, length, ◌==◌, str_eq, str_append, is_some,
}
use onecrawler_backend.Tables.{find, select, update, delete, insert}
use onecrawler_backend.Tables.Order.{sort_by}
use onecrawler_backend.Exec.{Exec, pure, gets, or_raise, raise_if, modify, ◌>>=◌, ◌>>◌}
use onecrawler_backend.Models.{Uuid, CrawlSettingsIn, FilterGroupIn, CrawlSettingsTemplate}
use onecrawler_backend.Backend.{Backend}

pub record CrawlTemplateIn : Type 0 where
  pub name : String
  pub settings : CrawlSettingsIn
  pub filters : Option FilterGroupIn

-- the columns of the unique constraint
abbrev pub is_named : Uuid → String → CrawlSettingsTemplate → Bool
is_named user_id name t = t.user_id == user_id && str_eq t.name name

abbrev pub is_owned_template : Uuid → Uuid → CrawlSettingsTemplate → Bool
is_owned_template user_id template_id t = t.id == template_id && t.user_id == user_id

abbrev pub new_template : Uuid → CrawlTemplateIn → Uuid → (ℕ → ℕ) → CrawlSettingsTemplate
new_template user_id payload new_id t = record {
  id = new_id;
  user_id = user_id;
  name = payload.name;
  settings = payload.settings;
  filters = payload.filters;
  created_at = t 0;
  updated_at = t 1;
}

-- the `detail` of the 409
abbrev pub already_exists : String → String
already_exists name = str_append "Template '" (str_append name "' already exists")

-- A commit against the unique constraint fails when another row has the user and the name: it is
-- rolled back, and the handler answers 409.
unfoldable pub create_crawl_template :
    Uuid → CrawlTemplateIn → Uuid → (ℕ → ℕ) → Exec Backend CrawlSettingsTemplate
unfolding ◌>>=◌
create_crawl_template user_id payload new_id t = do
  taken ← gets (λ s. find (is_named user_id payload.name) s.templates)
  raise_if (is_some taken) 409 (already_exists payload.name)
  modify (λ s. record s { templates = insert (new_template user_id payload new_id t) s.templates })
  pure (new_template user_id payload new_id t)

-- The database orders texts by its collation, which is the first parameter.
unfoldable pub list_crawl_templates :
    (String → String → Bool) → Uuid → Exec Backend (List CrawlSettingsTemplate × ℕ)
unfolding ◌>>=◌
list_crawl_templates collates user_id = do
  items ← gets (λ s.
      sort_by (λ (a b : CrawlSettingsTemplate). collates a.name b.name)
        (select (λ (x : CrawlSettingsTemplate). x.user_id == user_id) s.templates))
  pure (items, length items)

unfoldable pub get_crawl_template : Uuid → Uuid → Exec Backend CrawlSettingsTemplate
unfolding ◌>>=◌
get_crawl_template user_id template_id = do
  or_raise (← gets (λ s. find (is_owned_template user_id template_id) s.templates)) 404
      "Template not found"

abbrev pub with_payload : CrawlTemplateIn → ℕ → CrawlSettingsTemplate → CrawlSettingsTemplate
with_payload payload now t = record t {
  name = payload.name;
  settings = payload.settings;
  filters = payload.filters;
  updated_at = now;
}

unfoldable pub update_crawl_template :
    Uuid → Uuid → CrawlTemplateIn → ℕ → Exec Backend CrawlSettingsTemplate
unfolding get_crawl_template
update_crawl_template user_id template_id payload now = do
  template ← get_crawl_template user_id template_id
  taken ← gets (λ s.
      find
        (λ (x : CrawlSettingsTemplate).
          is_named template.user_id payload.name x && not (x.id == template.id))
        s.templates)
  raise_if (is_some taken) 409 (already_exists payload.name)
  modify (λ s. record s {
    templates =
        update (λ (x : CrawlSettingsTemplate). x.id == template.id) (with_payload payload now)
          s.templates;
  })
  pure (with_payload payload now template)

unfoldable pub delete_crawl_template : Uuid → Uuid → Exec Backend (Unit {0})
unfolding get_crawl_template
delete_crawl_template user_id template_id = do
  template ← get_crawl_template user_id template_id
  modify (λ s. record s {
    templates = delete (λ (x : CrawlSettingsTemplate). x.id == template.id) s.templates;
  })

pub record CrawlTemplateOut : Type 0 where
  pub id : Uuid
  pub name : String
  pub settings : CrawlSettingsIn
  pub filters : Option FilterGroupIn
  pub created_at : ℕ
  pub updated_at : ℕ

-- `from_attributes`: the row without its owner
abbrev pub template_out : CrawlSettingsTemplate → CrawlTemplateOut
template_out t = record {
  id = t.id;
  name = t.name;
  settings = t.settings;
  filters = t.filters;
  created_at = t.created_at;
  updated_at = t.updated_at;
}

pub record CrawlTemplateListOut : Type 0 where
  pub items : List CrawlTemplateOut
  pub total : ℕ

abbrev pub template_list_out : List CrawlSettingsTemplate × ℕ → CrawlTemplateListOut
template_list_out (ts, n) = record { items = map template_out ts; total = n }
