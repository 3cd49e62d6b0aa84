-- ===== src/Persistence/Locking/Ancestry.antt =====
-- `_object_template_order` of src/netauto/persistence/locking.py: the order in which planned
-- ObjectTemplate lineages are locked. The heap `ready` is the ascending list of its items, and each
-- Python set is the list of its elements in the order in which they were added; a set of UUIDs has
-- no order of its own, and only the choice among several errors turns on it.
-- The walks and the main loop take fuel: a round of a walk adds a new key of the mapping to `seen`,
-- and a round of the main loop takes one lineage out of the heap.
pub mod Terminates
use netauto.Prelude.{
  ℕ, zero, suc, ◌-◌, true, false, ◌||◌, Option, none, some, List, [], ◌∷◌, map, if◌then◌else◌, Uuid,
  ◌==◌, ℕ_eq, list_eq, option_eq, length, all, keep, contains, Result, ok, err, ◌>>=◌, ◌>>◌, guard,
}
use netauto.Prelude.Dict.{Dict, dict_get, dict_set, dict_has}
use netauto.Prelude.Sort.{sort_by, insert_sorted}
use netauto.Persistence.Locking.Keys.{
  LockError, ancestry_missing, ancestry_cycle, lineage_missing, out_of_fuel,
}

abbrev pub Parents : Type 0
Parents = Dict Uuid (Option Uuid)

-- The `while current is not None` loop over one descendant: its ancestors, nearest first.
unfoldable pub ancestors_of :
    ℕ → Parents → Uuid → List Uuid → Option Uuid → Result LockError (List Uuid)
ancestors_of fuel parents descendant seen none = ok []
ancestors_of zero parents descendant seen (some current) = err out_of_fuel
ancestors_of (suc fuel) parents descendant seen (some current) =
    elim (contains seen current || current == descendant) [
      | true ↦ err ancestry_cycle
      | false ↦ elim (dict_get current parents) [
        | none ↦ err lineage_missing
        | some parent ↦ do
          rest ← ancestors_of fuel parents descendant (current ∷ seen) parent
          ok (current ∷ rest)
      ]
    ]

-- `current = parent_by_id[descendant]`, and the walk from there
unfoldable pub ancestors : Parents → Uuid → Result LockError (List Uuid)
unfolding ancestors_of
ancestors parents descendant = elim (dict_get descendant parents) [
  | none ↦ err ancestry_missing
  | some parent ↦ ancestors_of (suc (length parents)) parents descendant [] parent
]

-- Each planned lineage with the planned lineages among its ancestors.
unfoldable pub planned_ancestors :
    List Uuid → Parents → List Uuid → Result LockError (Dict Uuid (List Uuid))
unfolding ancestors keep
planned_ancestors lineages parents [] = ok []
planned_ancestors lineages parents (descendant ∷ rest) = do
  above ← ancestors parents descendant
  others ← planned_ancestors lineages parents rest
  ok ((descendant, keep (λ a. contains lineages a) above) ∷ others)

-- `sorted(edges[current])`
unfoldable pub edges : Dict Uuid (List Uuid) → Uuid → List Uuid
unfolding keep sort_by
edges above current =
    sort_by (λ (d : ℕ). d ∷ []) (map (λ (d, _). d) (keep (λ (_, up). contains up current) above))

-- the loop `for child in sorted(edges[lineage_id])`
unfoldable pub release : List Uuid → Dict Uuid ℕ → List Uuid → Dict Uuid ℕ × List Uuid
unfolding dict_get dict_set insert_sorted
release [] indegree ready = (indegree, ready)
release (child ∷ children) indegree ready =
    let degree : ℕ = elim (dict_get child indegree) [ none ↦ 0 | some n ↦ n - 1 ] in
    release children (dict_set child degree indegree)
      (if degree == 0 then insert_sorted (λ (d : ℕ). d ∷ []) child ready else ready)

-- `while ready`
unfoldable pub drain : ℕ → Dict Uuid (List Uuid) → Dict Uuid ℕ → List Uuid → List Uuid
unfolding edges release
drain fuel above indegree [] = []
drain zero above indegree (lineage ∷ ready) = []
drain (suc fuel) above indegree (lineage ∷ ready) =
    let (indegree', ready') = release (edges above lineage) indegree ready in
    lineage ∷ drain fuel above indegree' ready'

unfoldable pub object_template_order : List Uuid → Parents → Result LockError (List Uuid)
unfolding planned_ancestors drain all sort_by
object_template_order lineages parents = do
  guard (all (λ lineage. dict_has lineage parents) lineages) ancestry_missing
  above ← planned_ancestors lineages parents lineages
  let indegree = map (λ (d, up). (d, length up)) above
  let roots = map (λ (d, _). d) (keep (λ (_, degree). degree == 0) indegree)
  let result = drain (length lineages) above indegree (sort_by (λ (d : ℕ). d ∷ []) roots)
  if length result == length lineages then ok result else err ancestry_cycle
