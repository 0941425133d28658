-- ===== src/Override/Prune.antt =====
-- The removal of objects from a JSON value, relay/common/override.go: pruneObjectsNode and
-- shouldPruneObject.
use east_api.Prelude.{String, Bool, false, not, ◌&&◌, Option, none, some, List, if◌then◌else◌}
use east_api.Override.{
  Json, null, flag, number, string, array, object, Items, no_items, item, Fields, no_fields, field,
}
use east_api.Override.Conditions.{Condition, Reader, check_conditions}

-- `pruneObjectsOptions`
pub record PruneOptions : Type 0 where
  pub conditions : List Condition
  pub logic : String
  pub recursive : Bool

-- What becomes of a node: an error, it is dropped, or it is kept as a value.
pub data Outcome : Type 0 where
  failed dropped : Outcome
  kept : Json → Outcome

abbrev pub add_item : Outcome → Option Items → Option Items
add_item failed rest = none
add_item dropped rest = rest
add_item (kept v) none = none
add_item (kept v) (some is) = some (item v is)

abbrev pub add_field : String → Outcome → Option Fields → Option Fields
add_field k failed rest = none
add_field k dropped rest = rest
add_field k (kept v) none = none
add_field k (kept v) (some fs) = some (field k v fs)

abbrev pub as_array : Option Items → Outcome
as_array none = failed
as_array (some is) = kept (array is)

abbrev pub as_object : Option Fields → Outcome
as_object none = failed
as_object (some fs) = kept (object fs)

module _ (reader : Reader) (options : PruneOptions) (context : Option Json) where
  -- `shouldPruneObject`
  unfoldable pub should_prune_object : Fields → Option Bool
  unfolding check_conditions
  should_prune_object fs =
      check_conditions reader (object fs) context options.conditions options.logic

  abbrev pub prune_checked : Option Bool → Bool → Outcome → Fields → Outcome
  prune_checked none is_root inside fs = failed
  prune_checked (some drop) is_root inside fs =
      if drop && not is_root
      then dropped
      else if not options.recursive
      then kept (object fs)
      else inside

  -- `pruneObjectsNode`
  unfoldable mutual
    unfolding should_prune_object

    pub prune_node : Bool → Json → Outcome
    prune_node is_root null = kept null
    prune_node is_root (flag b) = kept (flag b)
    prune_node is_root (number n) = kept (number n)
    prune_node is_root (string s) = kept (string s)
    prune_node is_root (array is) = let rest = prune_items is in as_array rest
    prune_node is_root (object fs) =
        let inside = prune_fields fs in
        prune_checked (should_prune_object fs) is_root (as_object inside) fs

    pub prune_items : Items → Option Items
    prune_items no_items = some no_items
    prune_items (item v is) =
        let rest = prune_items is in let here = prune_node false v in add_item here rest

    pub prune_fields : Fields → Option Fields
    prune_fields no_fields = some no_fields
    prune_fields (field k v fs) =
        let rest = prune_fields fs in let here = prune_node false v in add_field k here rest
