-- ===== src/Metadata/Laws.antt =====
-- Metadata as a map from lowered keys, and through a request.
use ttrpc.Prelude.{
  ◌∙◌, ap, String, ◌≡◌, refl, sym, ◌≢◌, inl, inr, Bool, true, false, Option, none, some, List, [],
  ◌∷◌, ◌++◌, append_assoc, append-nil, arith, if◌then◌else◌, ◌==◌, nat_eq, string_eq, Option-cases,
}
use ttrpc.Prelude.Assoc.{lookup, insert, delete, lookup-insert, lookup-delete}
use text.Mathlib.TextEquality.{eq_iff}
use ttrpc.Request.{KeyValue, Request}
use ttrpc.Metadata.{
  clone, get_metadata_value, get_request_context, metadata_of, Md, or_nil, non_empty, get, set,
  append, key_values, md_pairs, set_request, from_pairs, from_request,
}

-- `or_nil` of a list of values
abbrev pub values : String → Md → List String
values k m = or_nil (lookup k m)

non_empty-or_nil : (o : Option (List String)) → or_nil (non_empty o) ≡ or_nil o
non_empty-or_nil none = refl
non_empty-or_nil (some []) = refl
non_empty-or_nil (some (v ∷ vs)) = refl

-- What `strings.ToLower` does that the code relies on: it changes nothing in a text that it has lowered.
abbrev IsLowering : (String → String) → Type 0
IsLowering lower = (k : String) → lower (lower k) ≡ lower k

values-insert :
    (k j : String) (vs : List String) (m : Md)
    → values j (insert k vs m) ≡ (if k == j then vs else values j m)
values-insert k j vs m = ground (arith, lookup-insert k j vs m)

values-delete :
    (k j : String) (m : Md) → values j (delete k m) ≡ (if k == j then [] else values j m)
values-delete k j m = ground (arith, lookup-delete k j m)

if-append : (b : Bool) (xs : List String) → xs ≡ (if b then xs ++ [] else xs)
if-append true xs = sym (append-nil xs)
if-append false xs = refl

values-set :
    (lower : String → String) (k j : String) (vs : List String) (m : Md)
    → values j (set lower k vs m) ≡ (if lower k == j then vs else values j m)
unfolding set
values-set lower k j [] m = values-delete (lower k) j m
values-set lower k j (v ∷ vs) m = values-insert (lower k) j (v ∷ vs) m

module _ (lower : String → String) (idem : IsLowering lower) where
  values-append :
      (k j : String) (vs : List String) (m : Md)
      → values j (append lower k vs m) ≡ (if lower k == j then values j m ++ vs else values j m)
  unfolding append
  values-append k j [] m = if-append (lower k == j) (values j m)
  values-append k j (v ∷ vs) m = elim (Option-cases (lookup (lower k) m)) [
    | inl e ↦ ground (arith, e, eq_iff (lower k) j, idem k, values-set lower (lower k) j (v ∷ vs) m)
    | inr (cur, e) ↦
        ground
          (arith, e, eq_iff (lower k) j, idem k, values-set lower (lower k) j (cur ++ v ∷ vs) m)
  ]

  -- With a lowering that changes nothing in a text that it has lowered, `Get` after `Set` and after
  -- `Append`: keys with the same lowered form are one key, whose values are replaced or extended;
  -- every other key keeps its values. (Where `Get` finds nothing the values are none.)
  get-set-append :
      (k j : String) (vs : List String) (m : Md)
      → (or_nil (get lower j (set lower k vs m))
          ≡ (if lower k == lower j then vs else or_nil (get lower j m)))
        × (or_nil (get lower j (append lower k vs m))
            ≡ (if lower k == lower j then or_nil (get lower j m) ++ vs else or_nil (get lower j m)))
  unfolding get
  get-set-append k j vs m = (
    rw (non_empty-or_nil, non_empty-or_nil) (values-set lower k (lower j) vs m),
    rw (non_empty-or_nil, non_empty-or_nil) (values-append k (lower j) vs m),
  )

-- The values of the pairs with a key, in order.
unfoldable pub collect : String → List KeyValue → List String
collect j [] = []
collect j (kv ∷ kvs) = if kv.key == j then kv.value ∷ collect j kvs else collect j kvs

-- `fromRequest` adds for each key the values of its pairs, in the order of the request, behind those
-- that the key has.
values-from_pairs :
    (j : String) (kvs : List KeyValue) (m : Md)
    → values j (from_pairs kvs m) ≡ values j m ++ collect j kvs
unfolding from_pairs collect
values-from_pairs j [] m = sym (append-nil (values j m))
values-from_pairs j (kv ∷ kvs) m = ground (
  arith,
  values-from_pairs j kvs (insert kv.key (values kv.key m ++ kv.value ∷ []) m),
  values-insert kv.key j (values kv.key m ++ kv.value ∷ []) m,
  eq_iff kv.key j,
  append_assoc (values j m) (kv.value ∷ []) (collect j kvs),
)

collect-append :
    (j : String) (xs ys : List KeyValue) → collect j (xs ++ ys) ≡ collect j xs ++ collect j ys
unfolding collect
collect-append j [] ys = refl
collect-append j (x ∷ xs) ys = ground (arith, collect-append j xs ys)

collect-key_values :
    (j k : String) (vs : List String) → collect j (key_values k vs) ≡ (if k == j then vs else [])
unfolding collect key_values
collect-key_values j k [] = ground arith
collect-key_values j k (v ∷ vs) = ground (arith, collect-key_values j k vs)

-- A map has each key once.
abbrev pub DistinctKeys : Md → Type 0
DistinctKeys [] = Unit {0}
DistinctKeys ((k, vs) ∷ m) = (lookup k m ≡ none) × DistinctKeys m

collect-md_pairs : (j : String) (m : Md) → DistinctKeys m → collect j (md_pairs m) ≡ values j m
unfolding md_pairs lookup collect
collect-md_pairs j [] d = refl
collect-md_pairs j ((k, vs) ∷ m) (fresh, d) = ground (
  arith,
  collect-append j (key_values k vs) (md_pairs m),
  collect-key_values j k vs,
  collect-md_pairs j m d,
  eq_iff k j,
  append-nil vs,
)

-- Metadata through a request: what `fromRequest` reads from a request that had no metadata before
-- `setRequest` has, for each key, the values that the map had, in their order.
pub from_request-set_request :
    (m : Md) (r : Request) (j : String)
    → DistinctKeys m
    → r.metadata ≡ []
    → values j (from_request (set_request m r) []) ≡ values j m
unfolding from_request set_request lookup
from_request-set_request m r j d e =
    ground (arith, values-from_pairs j (r.metadata ++ md_pairs m) [], collect-md_pairs j m d)

-- The pairs with other keys
unfoldable pub without_key : String → List KeyValue → List KeyValue
without_key k [] = []
without_key k (kv ∷ kvs) = let rest = without_key k kvs in if kv.key == k then rest else kv ∷ rest

collect-without_key :
    (k j : String) (kvs : List KeyValue) → j ≢ k → collect j (without_key k kvs) ≡ collect j kvs
unfolding collect without_key
collect-without_key k j [] n = refl
collect-without_key k j (kv ∷ kvs) n =
    ground (arith, collect-without_key k j kvs n, eq_iff kv.key k, eq_iff kv.key j)

-- Every pair of a request whose key is no lowered text is stored under that key as it is, with all
-- values of the key in order; and what `Get` finds, for any name, are the values that it would find if
-- the request had none of the pairs with that key.
pub unlowered_key_unreachable :
    (lower : String → String) (k : String) (r : Request) (j : String)
    → ((i : String) → lower i ≢ k)
    → (values k (from_request r []) ≡ collect k r.metadata)
      × (or_nil (get lower j (from_request r []))
          ≡ or_nil
              (get lower j (from_request (record r { metadata = without_key k r.metadata }) [])))
unfolding get from_request lookup
unlowered_key_unreachable lower k r j h =
    let kvs = r.metadata in
    (
      values-from_pairs k kvs [],
      non_empty-or_nil (lookup (lower j) (from_pairs kvs []))
          ∙ values-from_pairs (lower j) kvs []
          ∙ sym (collect-without_key k (lower j) kvs (h j))
          ∙ sym (values-from_pairs (lower j) (without_key k kvs) [])
          ∙ sym (non_empty-or_nil (lookup (lower j) (from_pairs (without_key k kvs) []))),
    )

-- A clone is equal to what it was made of.
clone_lem : (m : Md) → clone m ≡ m
unfolding clone
clone_lem [] = refl
clone_lem ((k, vs) ∷ m) = ap (◌∷◌ (k, vs)) (clone_lem m)

-- `GetMetadataValue` gives the first of the values that `Get` finds.
get_metadata_value-get :
    (lower : String → String) (name : String) (m : Md) (v : String) (rest : List String)
    → get lower name m ≡ some (v ∷ rest)
    → get_metadata_value lower name (some m) ≡ some v
unfolding get_metadata_value
get_metadata_value-get lower name m v rest e = ground (arith, e)

-- The context of a request that came with metadata and no timeout.
get_request_context_lem :
    (kv : KeyValue) (kvs : List KeyValue) (r : Request)
    → r.metadata ≡ kv ∷ kvs
    → r.timeout_nano ≡ 0
    → get_request_context r ≡ record { metadata = some (from_request r []); timeout = none }
unfolding get_request_context metadata_of
get_request_context_lem kv kvs r e t = ground (arith, e, t)
