-- ===== src/Graph/Schema.antt =====
-- internal/graph/spec.go: the schema of each node type and the validation of a node's spec. Titles,
-- default sizes, colours and descriptions are for display and are left out of a schema.
use ic.Prelude.{ℕ, String, Bool, true, false, List, [], ◌∷◌, Option, none, some, if◌then◌else◌}
use ic.Prelude.Int.{pos}
use ic.Prelude.Dict.{lookup}
use ic.Platform.Errors.{new_error, Code, DomainError}
use ic.Graph.Document.{Port, Ports}
use ic.Graph.Ids.{valid_node_type_id, is_plugin_type}

pub data FieldKind : Type 0 where
  field_string field_number field_int field_bool field_strings field_object field_any : FieldKind

pub record Schema : Type 0 where
  pub ports : Ports
  pub fields : List (String × FieldKind)
  pub required : List String

abbrev port : String → String → String → Bool → ℕ → Port
port id name kind multiple order = record {
  id = id;
  name = name;
  kind = kind;
  multiple = multiple;
  required = false;
  order = pos order;
}

abbrev media : String → List (String × FieldKind) → Schema
media kind fields = record {
  ports = record {
    inputs = port "in" "input" kind true 0 ∷ [];
    outputs = port "out" kind kind false 0 ∷ [];
  };
  fields = fields;
  required = [];
}

prompt_schema : Schema
prompt_schema = record {
  ports = record { inputs = []; outputs = port "out" "text" "text" false 0 ∷ [] };
  fields =
      ("text", field_string)
      ∷ ("fontSize", field_number)
      ∷ ("variables", field_object)
      ∷ ("promptWrap", field_bool)
      ∷ [];
  required = "text" ∷ [];
}

image_schema : Schema
image_schema = media "image" (
    ("assetId", field_string)
    ∷ ("fit", field_string)
    ∷ ("freeResize", field_bool)
    ∷ ("annotations", field_any)
    ∷ ("naturalW", field_number)
    ∷ ("naturalH", field_number)
    ∷ ("bytes", field_int)
    ∷ ("mime", field_string)
    ∷ [])

video_schema : Schema
video_schema = media "video" (
    ("assetId", field_string)
    ∷ ("poster", field_string)
    ∷ ("loop", field_bool)
    ∷ ("controls", field_bool)
    ∷ ("durationMs", field_int)
    ∷ ("naturalW", field_number)
    ∷ ("naturalH", field_number)
    ∷ ("bytes", field_int)
    ∷ ("mime", field_string)
    ∷ [])

audio_schema : Schema
audio_schema = media "audio" (
    ("assetId", field_string)
    ∷ ("durationMs", field_int)
    ∷ ("bytes", field_int)
    ∷ ("mime", field_string)
    ∷ ("waveform", field_any)
    ∷ [])

group_schema : Schema
group_schema = record {
  ports = record { inputs = []; outputs = [] };
  fields = ("collapsed", field_bool) ∷ ("tint", field_string) ∷ [];
  required = [];
}

generation_schema : Schema
generation_schema = record {
  ports = record {
    inputs = port "prompt" "prompt" "text" true 0 ∷ port "ref" "reference" "image" true 1 ∷ [];
    outputs = port "out" "result" "image" false 0 ∷ port "text" "text" "text" false 1 ∷ [];
  };
  fields =
      ("capability", field_string)
      ∷ ("providerId", field_string)
      ∷ ("credentialId", field_string)
      ∷ ("model", field_string)
      ∷ ("params", field_object)
      ∷ ("outputCount", field_int)
      ∷ ("promptTemplate", field_string)
      ∷ ("editMode", field_string)
      ∷ ("reasoningLevel", field_string)
      ∷ [];
  required = "capability" ∷ [];
}

run_schema : Schema
run_schema = record {
  ports = record { inputs = []; outputs = port "out" "result" "json" false 0 ∷ [] };
  fields = ("runId", field_string) ∷ [];
  required = [];
}

-- The port names are Chinese in the source; no code compares them.
unfoldable pub builtin_schemas : List (String × Schema)
unfolding prompt_schema image_schema video_schema audio_schema group_schema generation_schema
    run_schema
builtin_schemas =
    ("prompt", prompt_schema)
    ∷ ("image", image_schema)
    ∷ ("video", video_schema)
    ∷ ("audio", audio_schema)
    ∷ ("group", group_schema)
    ∷ ("generation", generation_schema)
    ∷ ("run", run_schema)
    ∷ []

-- `pluginSchemas`: nil, or the schemas that the plugin registry answers.
abbrev pub PluginSchemas : Type 0
PluginSchemas = Option (String → Option Schema)

module _ (plugins : PluginSchemas) where
  plugin_schema : String → Option Schema
  plugin_schema t = elim plugins [ none ↦ none | some spec_schema_for ↦ spec_schema_for t ]

  unfoldable pub schema_for : String → Option Schema
  unfolding plugin_schema
  schema_for t =
      if valid_node_type_id t
      then elim (lookup t builtin_schemas) [
        | some s ↦ some s
        | none ↦ if is_plugin_type t then plugin_schema t else none
      ]
      else none

abbrev pub invalid_spec : String → DomainError
invalid_spec message = new_error 422 Code.invalid_spec message
