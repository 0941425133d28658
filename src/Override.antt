-- ===== src/Override.antt =====
-- The overrides of a request that a channel's settings ask for, relay/common/override.go. A parsed
-- JSON value is a `Json`; Go's maps are lists of pairs with one pair for a key.
pub mod Headers
pub mod Effects
pub mod Conditions
pub mod Prune
pub mod Pruned
use east_api.Prelude.{String, Bool, Option, none, some, str_eq, if◌then◌else◌}

-- A number is kept as its text.
mutual
  pub data Json : Type 0 where
    null : Json
    flag : Bool → Json
    number : String → Json
    string : String → Json
    array : Items → Json
    object : Fields → Json

  pub data Items : Type 0 where
    no_items : Items
    item : Json → Items → Items

  pub data Fields : Type 0 where
    no_fields : Fields
    field : String → Json → Fields → Fields

unfoldable pub lookup : String → Fields → Option Json
lookup k no_fields = none
lookup k (field j v fs) = if str_eq j k then some v else lookup k fs

unfoldable pub delete_field : String → Fields → Fields
delete_field k no_fields = no_fields
delete_field k (field j v fs) =
    let rest = delete_field k fs in if str_eq j k then rest else field j v rest

unfoldable pub set_field : String → Json → Fields → Fields
unfolding delete_field
set_field k v fs = field k v (delete_field k fs)
