-- ===== src/Application/DataTypes/Tests.antt =====
-- Runs of `DataTypeService` on concrete rows.
use netauto.Prelude.{
  ℕ, ◌<◌, ◌≡◌, refl, ap, ◌⊎◌, true, none, some, List, [], ◌∷◌, ◌++◌, map, codes, ℕ_eq, list_beq,
  list_eq, option_eq, find, any, all, Result, ok, err,
}
use netauto.Domain.Value.{Value, Fields}
use netauto.Domain.Primitives.{PrimitiveType, PrimitiveValidationError}
use netauto.Domain.DataTypes.{DataType, DataTypeVersion, draft}
use netauto.Domain.DataTypes.{validate_qualified_name}
use netauto.Domain.Primitives.{parse_primitive_type}
use netauto.Domain.Identifiers.{is_namespace, is_identifier, split_dots, starts_with}
use netauto.Persistence.Database.{Database}
use netauto.Persistence.DataTypes as Store
use netauto.Persistence.DataTypes.{has_id}
use netauto.Persistence.DataTypes.Admission.{admit_default}
use netauto.Application.DataTypes.Invariant.Admitted.{admit_default_lem}
use netauto.Persistence.DataTypes.Numbers.{next_version_fresh, Fits}
use netauto.Application.DataTypes.{not_found}
use netauto.Application.DataTypes.Operations.{
  validate_candidate, Request, serve, create_request, publish_request,
}
use netauto.Application.DataTypes.Effects.{settle, create_effect, publish_effect}
use netauto.Application.DataTypes.Effects.Serve.{request_effect, serve_refines, create_outcome}
use netauto.Application.DataTypes.Invariant.{IsSound}
use netauto.Application.DataTypes.Invariant.Requests.{serve-IsSound}
use netauto.Application.DataTypes.History.{Evolves}
use netauto.Application.DataTypes.History.Requests.{serve-Evolves}
use netauto.Application.DataTypes.Names.{IsNamed}
use netauto.Application.DataTypes.Names.Requests.{serve-IsNamed}
use netauto.Application.DataTypes.Pages.{
  AreMembers, list_versions, list_versions_page, failed, page_from,
}
use netauto.Persistence.DataTypes.Pages.{summary}
use netauto.Application.DataTypes.Atomicity.{serve_raises}
use netauto.Failures.{out_of_range}

-- constraints that are kept as they come
abbrev keep_constraints : PrimitiveType → Value → Result PrimitiveValidationError Value
keep_constraints t c = ok c

abbrev no_rows : Database
no_rows = record {
  datatypes = [];
  datatype_versions = [];
  object_template_properties = [];
  object_template_versions = [];
  relationship_definition_properties = [];
  relationship_definition_versions = [];
}

no_rows-IsSound : IsSound no_rows
unfolding Store.get_lineage Store.get_version find
no_rows-IsSound = record {
  names = refl;
  default_published = λ id l v h d. absurd (cc h);
  owned = λ id v x h. absurd (cc h);
  positive = λ id v x h. absurd (cc h);
}

-- a lineage `net.mtu`, its first version
abbrev mtu : DataType
mtu = record {
  id = 7;
  namespace = codes "net";
  name = codes "mtu";
  description = none;
  default_version = none;
}

abbrev mtu_draft : DataTypeVersion
mtu_draft = record {
  datatype_id = 7;
  version = 1;
  revision = 1;
  status = draft;
  base_type = PrimitiveType.integer;
  constraints = Value.dict Fields.end;
}

abbrev creation : Request
creation =
    create_request 7 (codes "net") (codes "mtu") (codes "core.integer") none (Value.dict Fields.end)

abbrev drafted : Database
drafted = (serve keep_constraints creation no_rows).1

drafted-IsSound : IsSound drafted
drafted-IsSound = serve-IsSound keep_constraints creation no_rows no_rows-IsSound

serve-IsSound_example : IsSound (serve keep_constraints (publish_request 7 1 1) drafted).1
serve-IsSound_example =
    serve-IsSound keep_constraints (publish_request 7 1 1) drafted drafted-IsSound

serve_refines_example :
    serve keep_constraints (publish_request 7 1 1) drafted
    ≡ settle drafted (request_effect keep_constraints (publish_request 7 1 1) drafted)
serve_refines_example = serve_refines keep_constraints (publish_request 7 1 1) drafted

serve-Evolves_example : Evolves drafted (serve keep_constraints (publish_request 7 1 1) drafted).1
serve-Evolves_example = serve-Evolves drafted keep_constraints (publish_request 7 1 1)

publish_unknown : (serve keep_constraints (publish_request 7 1 1) no_rows).0 ≡ err (not_found 7)
unfolding request_effect publish_effect Store.get_lineage find
publish_unknown = rw serve_refines refl

serve_raises_example : (serve keep_constraints (publish_request 7 1 1) no_rows).1 ≡ no_rows
serve_raises_example =
    serve_raises keep_constraints (publish_request 7 1 1) no_rows (not_found 7) publish_unknown

abbrev mtu_rows : Database
mtu_rows = record no_rows { datatypes = mtu ∷ []; datatype_versions = mtu_draft ∷ [] }

-- the rows that `create` leaves
creation_rows : drafted ≡ mtu_rows
unfolding request_effect create_outcome validate_candidate create_effect Store.create
    Store.insert_lineage Store.insert_version Store.check_lineage Store.check_version
    Store.classify_create validate_qualified_name parse_primitive_type is_namespace is_identifier
    split_dots starts_with list_beq any all
creation_rows = ap (λ p. p.1) (serve_refines keep_constraints creation no_rows)

next_version_fresh_example :
    ((v : ℕ) (x : DataTypeVersion)
      → Store.get_version 7 v mtu_rows ≡ some x
      → v < Store.next_version 7 mtu_rows)
    × ((y : DataTypeVersion)
        → y.datatype_id ≡ 7
        → y.version ≡ Store.next_version 7 mtu_rows
        → any (has_id 7) mtu_rows.datatypes ≡ true
        → (Fits y
            → Store.insert_version y mtu_rows
              ≡ ok (
                tt,
                record mtu_rows { datatype_versions = mtu_rows.datatype_versions ++ y ∷ [] },
              ))
          × (Store.integer_max < Store.next_version 7 mtu_rows
              → Store.insert_version y mtu_rows ≡ err out_of_range))
next_version_fresh_example = next_version_fresh 7 mtu_rows

abbrev published_rows : Database
published_rows = (serve keep_constraints (publish_request 7 1 1) drafted).1

published_rows-IsSound : IsSound published_rows
published_rows-IsSound =
    serve-IsSound keep_constraints (publish_request 7 1 1) drafted drafted-IsSound

admit_default_lem_example :
    ((Store.get_lineage 7 published_rows ≡ none) × (admit_default 7 published_rows ≡ ok none))
    ⊎ ((l : DataType) × (Store.get_lineage 7 published_rows ≡ some l)
        × (((l.default_version ≡ none) × (admit_default 7 published_rows ≡ ok (some (l, none))))
            ⊎ ((v : ℕ) × (x : DataTypeVersion) × (l.default_version ≡ some v)
                × (Store.get_version 7 v published_rows ≡ some x)
                × (Store.is_published x.status ≡ true)
                × (admit_default 7 published_rows ≡ ok (some (l, some x))))))
admit_default_lem_example = admit_default_lem 7 published_rows published_rows-IsSound

serve-IsNamed_example : IsNamed (serve keep_constraints creation no_rows).1
serve-IsNamed_example = serve-IsNamed no_rows tt keep_constraints creation

list_versions_page_example :
    (rows : List DataTypeVersion) × AreMembers 7 none none mtu_rows rows
    × (list_versions 7 none none 1 mtu_rows ≡ elim (Store.get_lineage 7 mtu_rows) [
      | none ↦ (err (failed (not_found 7)), mtu_rows)
      | some _ ↦ (page_from 1 (map summary rows), mtu_rows)
    ])
list_versions_page_example = list_versions_page 7 none none 1 mtu_rows
