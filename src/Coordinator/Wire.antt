-- ===== src/Coordinator/Wire.antt =====
-- The JSON form of `sessionMeta` (pkg/coordinator.go), which etcd stores and a redirect carries.
-- A JSON text is the value it stands for: what encoding/json does with letters, spaces and escapes
-- is not modelled, and member names are compared exactly.
use mathlib.Core.Option.{some-injective}
use ion_cluster.Base.{
  ◌≡◌, refl, sym, ap, ◌∙◌, String, Bool, false, Option, none, some, ite, text_discrete,
}
use ion_cluster.Coordinator.{SessionMeta}

mutual
  pub data Json : Type 0 where
    null : Json
    bool : Bool → Json
    number : String → Json
    string : String → Json
    array : Items → Json
    object : Fields → Json

  pub data Items : Type 0 where
    nil : Items
    cons : Json → Items → Items

  pub data Fields : Type 0 where
    end : Fields
    field : String → Json → Fields → Fields

abbrev meta_fields : SessionMeta → Fields
meta_fields m = field "session_id" (string m.session_id) (
    field "node_id" (string m.node_id)
      (field "node_endpoint" (string m.node_endpoint) (field "redirect" (bool m.redirect) end)))

-- `json.Marshal(&meta)`
unfoldable pub marshal_meta : SessionMeta → Json
marshal_meta m = object (meta_fields m)

-- A JSON null leaves a Go variable as it is; a value of another type is an error.
abbrev string_or : String → Json → Option String
string_or old (string s) = some s
string_or old null = some old
string_or old _ = none

abbrev bool_or : Bool → Json → Option Bool
bool_or old (bool b) = some b
bool_or old null = some old
bool_or old _ = none

abbrev and_then : {A B : Type 0} → Option A → (A → B) → Option B
and_then none f = none
and_then (some a) f = some (f a)

-- One member of the object, by the struct tags; a name that no tag has is skipped.
unmarshal_field : String → Json → SessionMeta → Option SessionMeta
unmarshal_field name v m =
    ite (text_discrete name "session_id")
      (and_then (string_or m.session_id v) (λ s. record m { session_id = s }))
      (ite (text_discrete name "node_id")
        (and_then (string_or m.node_id v) (λ s. record m { node_id = s }))
        (ite (text_discrete name "node_endpoint")
          (and_then (string_or m.node_endpoint v) (λ s. record m { node_endpoint = s }))
          (ite (text_discrete name "redirect")
            (and_then (bool_or m.redirect v) (λ b. record m { redirect = b })) (some m))))

unmarshal_fields : Fields → SessionMeta → Option SessionMeta
unfolding unmarshal_field
unmarshal_fields end m = some m
unmarshal_fields (field name v rest) m = elim (unmarshal_field name v m) [
  | none ↦ none
  | some m' ↦ unmarshal_fields rest m'
]

abbrev zero_meta : SessionMeta
zero_meta = record { session_id = ""; node_id = ""; node_endpoint = ""; redirect = false }

-- `json.Unmarshal(value, &meta)` into a zero `sessionMeta`; `none` is an error.
unfoldable pub unmarshal_meta : Json → Option SessionMeta
unfolding unmarshal_fields
unmarshal_meta null = some zero_meta
unmarshal_meta (object fields) = unmarshal_fields fields zero_meta
unmarshal_meta _ = none

-- What one node has marshalled another unmarshals: every field of the meta comes back.
pub unmarshal_meta-marshal_meta : (m : SessionMeta) → unmarshal_meta (marshal_meta m) ≡ some m
unfolding unmarshal_meta marshal_meta text_discrete
unmarshal_meta-marshal_meta m = refl

pub marshal_meta-injective : (a b : SessionMeta) → marshal_meta a ≡ marshal_meta b → a ≡ b
marshal_meta-injective a b e =
    some-injective a b
      (sym (unmarshal_meta-marshal_meta a) ∙ ap unmarshal_meta e ∙ unmarshal_meta-marshal_meta b)
