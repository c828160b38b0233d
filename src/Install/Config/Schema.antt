-- ===== src/Install/Config/Schema.antt =====
-- `packageConfigGroup` of install/package.go: the schema of a package's configuration, as it is
-- decoded from `config.json`.
use mantl_api.Prelude.{String, ◌≡◌, ◌==◌, Bool, false, Option, none, some, List, [], if◌then◌else◌}
use mantl_api.Prelude.Text.{equal_fold}
use mantl_api.Prelude.Outcome.{Result, ok, ◌>>=◌}
use mantl_api.Json.{Value, Fields, null, obj, end, field, mismatch, to_string, to_bool, to_strings}

mutual
  -- description, type, additionalProperties, properties, required, minimum, default
  pub data Group (N : Type 0) : Type 0 where
    group : String → String → Bool → Properties N → List String → Value N → Value N → Group N

  pub data Properties (N : Type 0) : Type 0 where
    none_left : Properties N
    property : String → Group N → Properties N → Properties N

module _ {N : Type 0} where
  -- `packageConfigGroup{}`
  abbrev pub empty : Group N
  empty = group "" "" false none_left [] null null

  abbrev pub type_of : Group N → String
  type_of (group d t a ps r m v) = t

  abbrev pub properties_of : Group N → Properties N
  properties_of (group d t a ps r m v) = ps

  abbrev pub default_of : Group N → Value N
  default_of (group d t a ps r m v) = v

  -- `g.Properties[k]`, with a comma ok
  unfoldable pub find : String → Properties N → Option (Group N)
  find k none_left = none
  find k (property j g ps) = let rest = find k ps in if j == k then some g else rest

  unfoldable pub put : String → Group N → Properties N → Properties N
  put k g none_left = property k g none_left
  put k g (property j h ps) =
      let rest = put k g ps in if j == k then property k g ps else property j h rest

  -- No property is declared twice.
  abbrev pub Unique : Properties N → Type 0
  Unique none_left = Unit
  Unique (property k g ps) = (find k ps ≡ none) × Unique ps

  -- The keys of a group but `properties`, stored into the group's fields.
  assign : String → Value N → Group N → Result (Group N)
  assign k v (group d t a ps r m dv) =
      if equal_fold k "description"
      then (do d' ← to_string d v; ok (group d' t a ps r m dv))
      else if equal_fold k "type"
      then (do t' ← to_string t v; ok (group d t' a ps r m dv))
      else if equal_fold k "additionalProperties"
      then (do a' ← to_bool a v; ok (group d t a' ps r m dv))
      else if equal_fold k "required"
      then (do r' ← to_strings v; ok (group d t a ps r' m dv))
      else if equal_fold k "minimum"
      then ok (group d t a ps r v dv)
      else if equal_fold k "default"
      then ok (group d t a ps r m v)
      else ok (group d t a ps r m dv)

  with_properties : Group N → Properties N → Group N
  with_properties (group d t a _ r m v) ps = group d t a ps r m v

  -- `json.Unmarshal` into a `packageConfigGroup`
  unfoldable mutual
    unfolding assign with_properties

    pub decode : Value N → Result (Group N)
    decode null = ok empty
    decode (obj m) = decode_keys m empty
    decode _ = mismatch

    decode_keys : Fields N → Group N → Result (Group N)
    decode_keys end g = ok g
    decode_keys (field k v m) g =
        let nested = decode_properties v (properties_of g) in
        (if equal_fold k "properties"
          then (do ps ← nested; ok (with_properties g ps))
          else assign k v g)
        >>= decode_keys m

    decode_properties : Value N → Properties N → Result (Properties N)
    decode_properties null ps = ok none_left
    decode_properties (obj m) ps = decode_each m ps
    decode_properties _ ps = mismatch

    decode_each : Fields N → Properties N → Result (Properties N)
    decode_each end ps = ok ps
    decode_each (field k v m) ps = do g ← decode v; decode_each m (put k g ps)
