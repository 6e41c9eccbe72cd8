-- ===== src/Metadata.antt =====
-- metadata.go: the metadata of a call. Keys are lowered by `Get`, `Set` and `Append`, by
-- `strings.ToLower`, which enters as the parameter `lower`.
pub mod Laws
use ttrpc.Prelude.{
  ℕ, String, Option, none, some, List, [], ◌∷◌, ◌++◌, if◌then◌else◌, ◌==◌, nat_eq, string_eq,
}
use ttrpc.Prelude.Assoc.{Assoc, lookup, insert, delete}
use ttrpc.Request.{KeyValue, Request}

abbrev pub Md : Type 0
Md = Assoc String (List String)

abbrev pub or_nil : Option (List String) → List String
or_nil none = []
or_nil (some vs) = vs

abbrev pub non_empty : Option (List String) → Option (List String)
non_empty (some (v ∷ vs)) = some (v ∷ vs)
non_empty _ = none

module _ (lower : String → String) where
  -- `Get`; `none` is the result false.
  pub get : String → Md → Option (List String)
  get key m = non_empty (lookup (lower key) m)

  -- `Set`
  pub set : String → List String → Md → Md
  set key [] m = delete (lower key) m
  set key (v ∷ vs) m = insert (lower key) (v ∷ vs) m

  -- `Append`; its call of `Set` lowers the key once more.
  pub append : String → List String → Md → Md
  append key [] m = m
  append key (v ∷ vs) m = elim (lookup (lower key) m) [
    | some current ↦ set (lower key) (current ++ v ∷ vs) m
    | none ↦ set (lower key) (v ∷ vs) m
  ]

  -- `GetMetadataValue`, with what `GetMetadata` finds in the context
  get_metadata_value : String → Option Md → Option String
  get_metadata_value name none = none
  get_metadata_value name (some m) = elim (get name m) [
    | none ↦ none
    | some vs ↦ elim vs [ [] ↦ none | v ∷ rest ↦ some v ]
  ]

abbrev pub pair : String → String → KeyValue
pair k v = record { key = k; value = v }

pub key_values : String → List String → List KeyValue
key_values k [] = []
key_values k (v ∷ vs) = pair k v ∷ key_values k vs

-- The key-value pairs that `setRequest` appends, in one order of the map.
pub md_pairs : Md → List KeyValue
md_pairs [] = []
md_pairs ((k, vs) ∷ m) = key_values k vs ++ md_pairs m

-- `setRequest`
unfoldable pub set_request : Md → Request → Request
set_request m r = record r { metadata = r.metadata ++ md_pairs m }

-- The loop of `fromRequest`: the key of a pair is used as it is.
unfoldable pub from_pairs : List KeyValue → Md → Md
from_pairs [] m = m
from_pairs (kv ∷ kvs) m =
    from_pairs kvs (insert kv.key (or_nil (lookup kv.key m) ++ kv.value ∷ []) m)

-- `fromRequest`
unfoldable pub from_request : Request → Md → Md
from_request r m = from_pairs r.metadata m

-- `Clone`: values are copied, so that the clone is equal as a value; its shared backing array is cut at
-- each slice's capacity.
clone : Md → Md
clone [] = []
clone ((k, vs) ∷ m) = (k, vs) ∷ clone m

-- What `getRequestContext` adds to the context: the metadata, if there is any, and the timeout in
-- nanoseconds, if it is not 0.
pub record RequestContext : Type 0 where
  pub metadata : Option Md
  pub timeout : Option ℕ

unfoldable pub metadata_of : Request → List KeyValue → Option Md
metadata_of r [] = none
metadata_of r (kv ∷ kvs) = some (from_request r [])

unfoldable pub get_request_context : Request → RequestContext
get_request_context r = record {
  metadata = metadata_of r r.metadata;
  timeout = if r.timeout_nano == 0 then none else some r.timeout_nano;
}
