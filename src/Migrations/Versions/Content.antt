-- ===== src/Migrations/Versions/Content.antt =====
-- alembic/versions/0005_crawl_result_content_jsonb.py
use onecrawler_backend.Prelude.{Option, none, some, List, [], ◌∷◌, String}
use onecrawler_backend.Migrations.Schema.{Json, JsonFields, ColumnType, Cell, Default}
use onecrawler_backend.Migrations.Operations.{Op}
use onecrawler_backend.Migrations.Versions.{Casts}

-- `_TO_JSONB_FN`
abbrev pub to_jsonb_fn : String
to_jsonb_fn = "_crawl_result_content_to_jsonb"

-- `jsonb_build_object('text', value)`, where the cast raises
abbrev pub parsed_or_text : String → Option Json → Json
parsed_or_text value none =
    Json.object (JsonFields.field "text" (Json.text value) JsonFields.no_fields)
parsed_or_text value (some j) = j

module _ (casts : Casts) where
  -- the function that the migration creates, on a text
  unfoldable pub content_to_jsonb : String → Json
  content_to_jsonb value = parsed_or_text value (casts.to_jsonb value)

  -- `_crawl_result_content_to_jsonb(content)`, where the cast of a null is null
  abbrev pub convert_up : Cell → Option Cell
  unfolding content_to_jsonb
  convert_up (Cell.text value) = some (Cell.json (content_to_jsonb value))
  convert_up Cell.null = some Cell.null
  convert_up _ = none

  -- `content::text`
  abbrev pub convert_down : Cell → Option Cell
  convert_down (Cell.json j) = some (Cell.text (casts.to_text j))
  convert_down Cell.null = some Cell.null
  convert_down _ = none

  unfoldable pub upgrade_0005 : List Op
  upgrade_0005 =
      Op.create_function to_jsonb_fn
      ∷ Op.set_default "crawl_result_items" "content" Default.absent
      ∷ Op.alter_type "crawl_result_items" "content" ColumnType.jsonb convert_up
      ∷ Op.set_default "crawl_result_items" "content"
          (Default.constant (Cell.json (Json.object JsonFields.no_fields)))
      ∷ Op.drop_function to_jsonb_fn
      ∷ []

  unfoldable pub downgrade_0005 : List Op
  downgrade_0005 =
      Op.set_default "crawl_result_items" "content" Default.absent
      ∷ Op.alter_type "crawl_result_items" "content" ColumnType.text convert_down
      ∷ Op.set_default "crawl_result_items" "content" (Default.constant (Cell.text ""))
      ∷ []
