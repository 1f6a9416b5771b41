-- ===== src/Commands/Envs.antt =====
-- cmd/root.go: which environment variables are bound to fields of the configuration.
use Prim.Native.String.{◌++◌ as text_append}
use ion_cluster.Base.{
  ◌≡◌, refl, sym, ◌∙◌, ap, subst, inl, inr, ◌⊎◌, String, Option, none, some, List, [], ◌∷◌, ◌++◌,
  All, Any, Lacks, split_at, split_at-first, split_at-none, to_lower,
}

-- A struct by its fields, as `reflect` shows it: their names, their `mapstructure` tags, and whether they
-- are structs themselves.
mutual
  pub data FieldKind : Type 0 where
    other_kind : FieldKind
    struct_kind : Struct → FieldKind

  pub data Struct : Type 0 where
    no_field : Struct
    field : String → Option String → FieldKind → Struct → Struct

abbrev pub key_name : String → Option String → String
key_name name none = to_lower name
key_name name (some tag) = tag

-- `strings.Join(parts, ".")`
abbrev pub join_more : String → List String → String
join_more part [] = part
join_more part (next ∷ parts) = text_append part (String.◌∷◌ "." (join_more next parts))

abbrev pub join_parts : List String → String
join_parts [] = ""
join_parts (part ∷ parts) = join_more part parts

-- `bindConfigEnvs`: the keys that it binds, in order.
unfoldable mutual
  pub bind_config_envs : Struct → List String → List String
  bind_config_envs no_field parts = []
  bind_config_envs (field name tag kind fields) parts =
      bind_field kind (parts ++ key_name name tag ∷ []) ++ bind_config_envs fields parts

  pub bind_field : FieldKind → List String → List String
  bind_field (struct_kind s) parts = bind_config_envs s parts
  bind_field other_kind parts = join_parts parts ∷ []

-- The names lead from a struct, through structs, to a field that is no struct.
pub data Leads : Struct → List String → Type 0 where
  ends :
      (name : String) (tag : Option String) (fields : Struct)
      → Leads (field name tag other_kind fields) (key_name name tag ∷ [])
  inside :
      (name : String) (tag : Option String) (s fields : Struct) (path : List String)
      → Leads s path
      → Leads (field name tag (struct_kind s) fields) (key_name name tag ∷ path)
  later :
      (name : String) (tag : Option String) (kind : FieldKind) (fields : Struct)
      (path : List String)
      → Leads fields path
      → Leads (field name tag kind fields) path

-- No name has a dot in it.
unfoldable mutual
  pub HasPlainNames : Struct → Type 0
  HasPlainNames no_field = Unit
  HasPlainNames (field name tag kind fields) =
      Lacks "." (key_name name tag) × IsPlain kind × HasPlainNames fields

  pub IsPlain : FieldKind → Type 0
  IsPlain (struct_kind s) = HasPlainNames s
  IsPlain other_kind = Unit

split_at-join_more :
    (part : String) (parts : List String)
    → Lacks "." part
    → All (Lacks ".") parts
    → split_at "." (join_more part parts) ≡ part ∷ parts
split_at-join_more part [] h hs = split_at-none "." part h
split_at-join_more part (next ∷ parts) h (h', hs) =
    split_at-first "." part (join_more next parts) h
    ∙ ap (λ l. part ∷ l) (split_at-join_more next parts h' hs)

append_assoc : (xs ys zs : List String) → (xs ++ ys) ++ zs ≡ xs ++ (ys ++ zs)
append_assoc [] ys zs = refl
append_assoc (x ∷ xs) ys zs = ap (λ l. x ∷ l) (append_assoc xs ys zs)

Any-append : (Q : String → Type 0) (xs ys : List String) → Any Q (xs ++ ys) → Any Q xs ⊎ Any Q ys
Any-append Q [] ys h = inr h
Any-append Q (x ∷ xs) ys (inl q) = inl (inl q)
Any-append Q (x ∷ xs) ys (inr h) = elim (Any-append Q xs ys h) [
  | inl l ↦ inl (inr l)
  | inr r ↦ inr r
]

append-Any : (Q : String → Type 0) (xs ys : List String) → Any Q xs ⊎ Any Q ys → Any Q (xs ++ ys)
append-Any Q [] ys (inl h) = absurd h
append-Any Q [] ys (inr h) = h
append-Any Q (x ∷ xs) ys (inl (inl q)) = inl q
append-Any Q (x ∷ xs) ys (inl (inr h)) = inr (append-Any Q xs ys (inl h))
append-Any Q (x ∷ xs) ys (inr h) = inr (append-Any Q xs ys (inr h))

-- The key is one of those bound.
abbrev pub Binds : List String → String → Type 0
Binds keys key = Any (λ k. k ≡ key) keys

-- The field behind the prefix that a key was bound for.
record Source (s : Struct) (parts : List String) (key : String) : Type 0 where
  path : List String
  leads : Leads s path
  joined : key ≡ join_parts (parts ++ path)

mutual
  unfolding bind_config_envs

  bound-Source :
      (s : Struct) (parts : List String) (key : String)
      → Binds (bind_config_envs s parts) key
      → Source s parts key
  bound-Source no_field parts key h = absurd h
  bound-Source (field name tag kind fields) parts key h =
      elim (Any-append _ (bind_field kind (parts ++ key_name name tag ∷ []))
        (bind_config_envs fields parts) h) [
          | inl own ↦ field-Source name tag kind fields parts key own
          | inr more ↦
              let found = bound-Source fields parts key more in
              record {
                path = found.path;
                leads = later name tag kind fields _ found.leads;
                joined = found.joined;
              }
        ]

  field-Source :
      (name : String) (tag : Option String) (kind : FieldKind) (fields : Struct)
      (parts : List String) (key : String)
      → Binds (bind_field kind (parts ++ key_name name tag ∷ [])) key
      → Source (field name tag kind fields) parts key
  field-Source name tag other_kind fields parts key (inl same) = record {
    path = key_name name tag ∷ [];
    leads = ends name tag fields;
    joined = sym same;
  }
  field-Source name tag other_kind fields parts key (inr h) = absurd h
  field-Source name tag (struct_kind s) fields parts key h =
      let found = bound-Source s (parts ++ key_name name tag ∷ []) key h in
      record {
        path = key_name name tag ∷ found.path;
        leads = inside name tag s fields _ found.leads;
        joined =
            found.joined ∙ ap join_parts (append_assoc parts (key_name name tag ∷ []) found.path);
      }

Leads-bound :
    (s : Struct) (parts path : List String)
    → Leads s path
    → Binds (bind_config_envs s parts) (join_parts (parts ++ path))
unfolding bind_config_envs
Leads-bound s parts path (ends name tag fields) = inl refl
Leads-bound s parts path (inside name tag s' fields path' h) =
    append-Any _ (bind_config_envs s' (parts ++ key_name name tag ∷ []))
      (bind_config_envs fields parts)
      (inl (
        subst (λ p. Binds (bind_config_envs s' (parts ++ key_name name tag ∷ [])) (join_parts p))
          (append_assoc parts (key_name name tag ∷ []) path')
          (Leads-bound s' (parts ++ key_name name tag ∷ []) path' h)))
Leads-bound s parts path (later name tag kind fields path' h) =
    append-Any _ (bind_field kind (parts ++ key_name name tag ∷ [])) (bind_config_envs fields parts)
      (inr (Leads-bound fields parts path h))

Leads-plain :
    (s : Struct) (path : List String)
    → Leads s path
    → HasPlainNames s
    → (split_at "." (join_parts path) ≡ path) × All (Lacks ".") path
unfolding HasPlainNames
Leads-plain s path (ends name tag fields) (own, kind, more) =
    (split_at-none "." (key_name name tag) own, (own, tt))
Leads-plain s path (inside name tag s' fields path' h) (own, kind, more) =
    let (_, plain) = Leads-plain s' path' h kind in
    (split_at-join_more (key_name name tag) path' own plain, (own, plain))
Leads-plain s path (later name tag k fields path' h) (own, kind, more) =
    Leads-plain fields path h more

-- For a configuration in whose names there is no dot, each key that is bound leads, by its parts at the
-- dots, from the configuration to a field that is no struct; and each such field is bound under a key
-- of its own, the one that has the names on the way to it as its parts.
pub bind_config_envs-Leads :
    (s : Struct)
    → HasPlainNames s
    → ((key : String) → Binds (bind_config_envs s []) key → Leads s (split_at "." key))
      × ((path : List String)
          → Leads s path
          → Binds (bind_config_envs s []) (join_parts path)
            × (split_at "." (join_parts path) ≡ path))
bind_config_envs-Leads s plain = (
  λ key h.
      let found = bound-Source s [] key h in
      let (parts, _) = Leads-plain s found.path found.leads plain in
      subst (Leads s) (sym (ap (split_at ".") found.joined ∙ parts)) found.leads,
  λ path h. (Leads-bound s [] path h, (Leads-plain s path h plain).0),
)
