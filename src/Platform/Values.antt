-- ===== src/Platform/Values.antt =====
-- JSON values as Go's `interface{}`, and Go maps from strings to them.
use serving_agent.Common.{
  ℕ, String, ◌≡◌, refl, Bool, Option, none, some, arith, eq_iff, str_eq, if◌then◌else◌,
}

-- `num` holds the bit pattern of a float64.
mutual
  pub data Json : Type 0 where
    null : Json
    bool : Bool → Json
    num : ℕ → Json
    str : String → Json
    arr : Items → Json
    obj : Fields → Json

  pub data Items : Type 0 where
    nil : Items
    cons : Json → Items → Items

  pub data Fields : Type 0 where
    end : Fields
    field : String → Json → Fields → Fields

-- `map[string]interface{}`, which may be nil.
pub data GoMap : Type 0 where
  nil_map : GoMap
  made : Fields → GoMap

lookup_field : String → Fields → Option Json
lookup_field k end = none
lookup_field k (field j v fs) = if str_eq j k then some v else lookup_field k fs

unfoldable pub insert_field : String → Json → Fields → Fields
insert_field k v end = field k v end
insert_field k v (field j w fs) =
    if str_eq j k then field j v fs else field j w (insert_field k v fs)

delete_field : String → Fields → Fields
delete_field k end = end
delete_field k (field j w fs) =
    let rest = delete_field k fs in if str_eq j k then rest else field j w rest

-- `v, ok := m[k]`
unfoldable pub get_key : String → GoMap → Option Json
unfolding lookup_field
get_key k nil_map = none
get_key k (made fs) = lookup_field k fs

-- `m[k] = v`; `none` is the panic of a write to a nil map.
unfoldable pub set_key : String → Json → GoMap → Option GoMap
unfolding insert_field
set_key k v nil_map = none
set_key k v (made fs) = some (made (insert_field k v fs))

-- `delete(m, k)`, which does nothing on a nil map.
unfoldable pub delete_key : String → GoMap → GoMap
unfolding delete_field
delete_key k nil_map = nil_map
delete_key k (made fs) = made (delete_field k fs)

-- A map stored in an `interface{}`; a nil map is written as `null`.
abbrev pub json_of_map : GoMap → Json
json_of_map nil_map = null
json_of_map (made fs) = obj fs

lookup-insert_field :
    (k j : String) (v : Json) (fs : Fields)
    → lookup_field j (insert_field k v fs) ≡ (if str_eq k j then some v else lookup_field j fs)
unfolding lookup_field insert_field
lookup-insert_field k j v end = refl
lookup-insert_field k j v (field i w fs) =
    ground (arith, eq_iff k j, eq_iff i k, eq_iff i j, lookup-insert_field k j v fs)

lookup-delete_field :
    (k j : String) (fs : Fields)
    → lookup_field j (delete_field k fs) ≡ (if str_eq k j then none else lookup_field j fs)
unfolding lookup_field delete_field
lookup-delete_field k j end = ground arith
lookup-delete_field k j (field i w fs) =
    ground (arith, eq_iff k j, eq_iff i k, eq_iff i j, lookup-delete_field k j fs)

pub get_key-delete_key :
    (k j : String) (m : GoMap)
    → get_key j (delete_key k m) ≡ (if str_eq k j then none else get_key j m)
unfolding get_key delete_key
get_key-delete_key k j nil_map = ground arith
get_key-delete_key k j (made fs) = lookup-delete_field k j fs

pub get_key-set_key :
    (k j : String) (v : Json) (m : GoMap) {m' : GoMap}
    → set_key k v m ≡ some m'
    → get_key j m' ≡ (if str_eq k j then some v else get_key j m)
unfolding get_key set_key
get_key-set_key k j v (made fs) h = ground (arith, lookup-insert_field k j v fs)
get_key-set_key k j v nil_map h = ground arith
