-- ===== src/Tools/Registry.antt =====
-- internal/tools/registry.go: the tools by their names. JSON values are kept as their texts. A tool's
-- Execute is the answer that it gives to an input when it is called, its effects outside included.
pub mod Registered
use nisix.Common.{Bool, true, false, Option, none, some, List, [], ◌∷◌, map, if◌then◌else◌, is_nil}
use nisix.Common.Text.{Text, codes}
use nisix.Common.Dict
use nisix.Common.Dict.{Dict}
use nisix.Common.Sorting.{sort_strings}

pub record Metadata : Type 0 where
  pub name : Text
  pub description : Text
  -- none is nil
  pub input_schema : Option Text
  pub output_schema : Option Text

-- What Execute gives: data, or the text of an error.
pub data ToolResult : Type 0 where
  result : Text → ToolResult
  tool_error : Text → ToolResult

-- `metadata` is none if the tool does not describe itself.
pub record Tool : Type 0 where
  pub name : Text
  pub metadata : Option Metadata
  pub execute : Text → ToolResult

pub record Registry : Type 0 where
  pub tools : Dict Tool

unfoldable pub new_registry : Registry
new_registry = record { tools = [] }

unfoldable pub register : Registry → Tool → Registry
register r tool = record { tools = Dict.put r.tools tool.name tool }

unfoldable pub get : Registry → Text → Option Tool
get r name = Dict.get r.tools name

abbrev run_found : Option Tool → Text → ToolResult
run_found none input = tool_error (codes "tools: tool not found")
run_found (some t) input = t.execute input

unfoldable pub execute : Registry → Text → Text → ToolResult
execute r name input = run_found (get r name) input

unfoldable pub names_of : Dict Tool → List Text
names_of [] = []
names_of ((name, t) ∷ tools) = name ∷ names_of tools

unfoldable pub list : Registry → List Text
list r = sort_strings (names_of r.tools)

abbrev object_schema : Text
object_schema = codes "{\"type\":\"object\"}"

abbrev with_schema : Metadata → Metadata
with_schema md = elim md.input_schema [
  | none ↦ record md { input_schema = some object_schema }
  | some s ↦ md
]

abbrev with_name : Text → Metadata → Metadata
with_name name md = if is_nil md.name then record md { name = name } else md

abbrev described : Text → Option Metadata → Metadata
described name none = record {
  name = name;
  description = [];
  input_schema = some object_schema;
  output_schema = none;
}
described name (some md) = with_name name md

abbrev metadata_in : Option Tool → Option Metadata
metadata_in none = none
metadata_in (some t) = t.metadata

-- The catalog's entry for a name; it is a registered one.
unfoldable pub entry_of : Registry → Text → Metadata
entry_of r name = with_schema (described name (metadata_in (get r name)))

unfoldable pub catalog : Registry → List Metadata
catalog r = map (entry_of r) (list r)
