-- ===== src/Tests/Headers.antt =====
-- The theorems on overrides, applied to data, and runs of the operations.
use east_api.Prelude.{String, false, true, ◌≡◌, refl, Option, none, some, [], ◌∷◌, str_eq}
use east_api.Prelude.Text.{trim_text}
use east_api.Override.{Json, flag, string, no_items, item, no_fields, field, lookup}
use east_api.Override.Headers.{Context, Texts, set_header, move_header}
use east_api.Override.Conditions.{Reader}
use east_api.Override.Prune.{PruneOptions, kept, prune_node}
use east_api.Override.Pruned.{PrunedOnce, prune_node-PrunedOnce}
use east_api.Override.Effects.{Sets, set_header-Sets}

-- All names of the examples are in lower case.
abbrev plain : Texts
plain = record { to_lower = λ s. s; equal_fold = str_eq; print = λ v. "value" }

abbrev context : Context
context = record {
  overrides = field "x-a" (string "1") no_fields;
  request_headers = field "anthropic-beta" (string "tools, cache") no_fields;
}

abbrev only_tools : Json
only_tools =
    Json.object
      (field "tools" (string "tools-2") (field "$keep_only_declared" (flag true) no_fields))

-- The override is not kept, and the new value is blank.
set_header-Sets_example :
    Sets plain context "x-a" (some " ") false (set_header plain context "x-a" (string " ") false)
set_header-Sets_example = set_header-Sets plain context "x-a" (string " ") false refl

-- A header of the request is rewritten to the one token that is declared.
rewritten :
    set_header plain context "anthropic-beta" only_tools false
    ≡ some (record context {
      overrides = field "anthropic-beta" (string "tools-2") (field "x-a" (string "1") no_fields);
    })
unfolding set_header trim_text
rewritten = refl

moved :
    move_header plain context "x-a" "x-b" false
    ≡ some (record context { overrides = field "x-b" (string "1") no_fields })
unfolding move_header trim_text
moved = refl

-- gjson on paths of one field, for the examples
abbrev find_field : Json → String → Option Json
find_field (Json.object fs) path = lookup path fs
find_field _ path = none

abbrev reader : Reader
reader = record {
  find = find_field;
  process_negative_index = λ body path. path;
  same = str_eq;
  less = λ a b. false;
  print = λ v. "";
  lower = λ s. s;
  upper = λ s. s;
}

abbrev images : PruneOptions
images = record {
  conditions =
      record {
        path = "type";
        mode = "full";
        value = string "image";
        invert = false;
        pass_missing_key = false;
      }
      ∷ [];
  logic = "AND";
  recursive = false;
}

abbrev part : String → Json
part kind = Json.object (field "type" (string kind) no_fields)

abbrev parts : Json
parts = Json.array (item (part "text") (item (part "image") (item (flag true) no_items)))

prune_node-PrunedOnce_example :
    PrunedOnce reader images none (prune_node reader images none true parts)
prune_node-PrunedOnce_example = prune_node-PrunedOnce reader images none refl parts

pruned :
    prune_node reader images none true parts
    ≡ kept (Json.array (item (part "text") (item (flag true) no_items)))
unfolding prune_node lookup
pruned = refl
