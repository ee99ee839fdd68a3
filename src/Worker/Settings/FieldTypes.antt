-- ===== src/Worker/Settings/FieldTypes.antt =====
-- `_parse_field_type` and `build_output_schema` of worker/settings_builder.py.
use Prim.Native.Char.{code}
use Prim.Native.String.{String}
use onecrawler_backend.Prelude.{
  ℕ, Bool, false, ◌||◌, Option, none, some, List, [], ◌∷◌, map, ◌==◌, if◌then◌else◌, str_eq,
  is_blank, get_or,
}

pub data BaseType : Type 0 where
  str int float bool list_str : BaseType

-- `(py_type, ...)`, or `(py_type | None, None)`
pub data FieldType : Type 0 where
  required : BaseType → FieldType
  nullable : BaseType → FieldType

-- `_BASE_TYPES.get(name, str)`
unfoldable pub base_type : String → BaseType
base_type name =
    if str_eq name "int"
    then BaseType.int
    else if str_eq name "float"
    then BaseType.float
    else if str_eq name "bool"
    then BaseType.bool
    else if str_eq name "list[str]"
    then BaseType.list_str
    else BaseType.str

-- what follows a fixed beginning
unfoldable pub after : String → String → Option String
after String.[] s = some s
after (String.◌∷◌ c p) String.[] = none
after (String.◌∷◌ c p) (String.◌∷◌ d s) =
    let rest = after p s in if code c == code d then rest else none

-- the text before a last character, if that character is the last
unfoldable pub before_last : ℕ → String → Option String
before_last k String.[] = none
before_last k (String.◌∷◌ c String.[]) = if code c == k then some String.[] else none
before_last k (String.◌∷◌ c (String.◌∷◌ d s)) = elim (before_last k (String.◌∷◌ d s)) [
  | none ↦ none
  | some t ↦ some (String.◌∷◌ c t)
]

unfoldable pub has_newline : String → Bool
has_newline String.[] = false
has_newline (String.◌∷◌ c s) = code c == 10 || has_newline s

-- `(.+)`: one character or more, none of them a newline
abbrev inner_text : String → Option String
inner_text t = if is_blank t || has_newline t then none else some t

-- The group of `^Optional\[(.+)\]$`; `$` also stands before a final newline.
unfoldable pub optional_inner : String → Option String
unfolding after before_last has_newline
optional_inner s = elim (after "Optional[" s) [
  | none ↦ none
  | some rest ↦ elim (before_last 93 (get_or (before_last 10 rest) rest)) [
    | none ↦ none
    | some t ↦ inner_text t
  ]
]

unfoldable pub parse_field_type : String → FieldType
unfolding optional_inner base_type
parse_field_type type_str = elim (optional_inner type_str) [
  | some inner ↦ FieldType.nullable (base_type inner)
  | none ↦ FieldType.required (base_type type_str)
]

-- the arguments of `create_model`; a `dict` has each name once
unfoldable pub build_output_schema : List (String × String) → Option (List (String × FieldType))
unfolding parse_field_type
build_output_schema [] = none
build_output_schema (f ∷ fs) =
    some (map (λ (field : String × String). (field.0, parse_field_type field.1)) (f ∷ fs))
