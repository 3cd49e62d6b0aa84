-- ===== src/Domain/Lineage.antt =====
-- The inheritance lineages of ObjectTemplates, as src/netauto/domain/relationships.py walks them. A
-- walk has one round more than the mapping has keys: each round but the last adds a key to `seen`.
pub mod Walk
pub mod Graph
use netauto.Prelude.{
  ℕ, zero, suc, Bool, true, false, Option, none, some, List, [], ◌∷◌, Uuid, codes, ◌==◌, ℕ_eq,
  list_eq, option_eq, length, contains, Result, ok, err, ◌>>=◌, ◌>>◌,
}
use netauto.Prelude.Dict.{Dict, dict_get, keys}
use netauto.Domain.Errors.{
  DomainError, invalid, out_of_fuel, word, relationship_definition, Rule,
  persisted_inheritance_cycle, persisted_lineage_dependency_missing,
}

abbrev pub ParentById : Type 0
ParentById = Dict Uuid (Option Uuid)

abbrev pub lineage_error : Rule → DomainError
lineage_error rule = invalid relationship_definition (word (codes "lineage") ∷ []) rule

-- the `while current is not None` loop of `lineage_is_ancestor`
unfoldable pub walk : ℕ → ParentById → Uuid → List Uuid → Option Uuid → Result DomainError Bool
unfolding dict_get contains
walk fuel parents ancestor seen none = ok false
walk zero parents ancestor seen (some current) = err out_of_fuel
walk (suc fuel) parents ancestor seen (some current) = elim (contains seen current) [
  | true ↦ err (lineage_error persisted_inheritance_cycle)
  | false ↦ elim (current == ancestor) [
    | true ↦ ok true
    | false ↦ elim (dict_get current parents) [
      | none ↦ err (lineage_error persisted_lineage_dependency_missing)
      | some parent ↦ walk fuel parents ancestor (current ∷ seen) parent
    ]
  ]
]

unfoldable pub lineage_is_ancestor : ParentById → Uuid → Uuid → Result DomainError Bool
unfolding walk
lineage_is_ancestor parents ancestor descendant =
    walk (suc (length parents)) parents ancestor [] (some descendant)

-- the `while current is not None` loop of `validate_lineage_graph`
unfoldable pub check_lineage :
    ℕ → ParentById → List Uuid → Option Uuid → Result DomainError (Unit {0})
unfolding dict_get contains
check_lineage fuel parents seen none = ok tt
check_lineage zero parents seen (some current) = err out_of_fuel
check_lineage (suc fuel) parents seen (some current) = elim (contains seen current) [
  | true ↦ err (lineage_error persisted_inheritance_cycle)
  | false ↦ elim (dict_get current parents) [
    | none ↦ err (lineage_error persisted_lineage_dependency_missing)
    | some parent ↦ check_lineage fuel parents (current ∷ seen) parent
  ]
]

unfoldable pub check_lineages : ParentById → List Uuid → Result DomainError (Unit {0})
unfolding check_lineage
check_lineages parents [] = ok tt
check_lineages parents (lineage ∷ rest) = do
  check_lineage (suc (length parents)) parents [] (some lineage)
  check_lineages parents rest

unfoldable pub validate_lineage_graph : ParentById → Result DomainError (Unit {0})
unfolding check_lineages
validate_lineage_graph parents = check_lineages parents (keys parents)

-- `or`: the second test is made where the first says no
unfoldable pub lineage_spaces_overlap : ParentById → Uuid → Uuid → Result DomainError Bool
unfolding lineage_is_ancestor
lineage_spaces_overlap parents first second = do
  above ← lineage_is_ancestor parents first second
  elim above [ true ↦ ok true | false ↦ lineage_is_ancestor parents second first ]
