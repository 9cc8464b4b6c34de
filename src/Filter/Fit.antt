-- ===== src/Filter/Fit.antt =====
-- internal/agent/filter/node.go, resourceFitCheck: the requested amounts against what the node has
-- idle and is releasing.
pub mod Laws
use Prim.Native.String.{◌++◌ as ◌<>◌}
use volens.Base.{
  String, Bool, true, false, not, ◌&&◌, ◌||◌, Option, none, some, List, [], ◌∷◌, ◌++◌, ◌==◌,
  is_some, is_empty, if◌then◌else◌,
}
use volens.Base.Int.{ℤ, pos, ltb_ℤ, leb_ℤ, is_zero}
use volens.Base.Dict.{lookup}
use volens.Base.Sort.{sort_by, sort_strings}
use volens.Kube.{Quantity, ResourceList}
use volens.Cluster.{Amounts, CacheNode}
use volens.Model.{
  Message, text, amount, strings, plain, of_amounts, of_names, object, end, field, Check,
}
use volens.Model.Checks.{known, unknown, with_evidence}
use volens.Filter.Resources.{value_of, resource_list_values, add_resources, clone_resources}
use volens.Filter.NodeChecks.{kubernetes_pods_allocatable_omitted}

-- What one requested resource comes to: the three `append`s of the loop, and its `continue`s.
pub data Verdict : Type 0 where
  enough : Verdict
  missing : String → Verdict
  insufficient : Message → Verdict

-- `name request %.3f > what %.3f why`
abbrev shortage : String → ℤ → String → ℤ → String → Message
shortage name request what bound why =
    text name ∷ text " request " ∷ amount request ∷ text what ∷ amount bound ∷ text why ∷ []

abbrev pub zero_or_absent : String → Amounts → Bool
zero_or_absent name d = elim (lookup name d) [ none ↦ true | some v ↦ is_zero v ]

-- `found && !quantity.IsZero()`
abbrev pub present : Option Quantity → Bool
present none = false
present (some q) = not q.is_zero

unfoldable pub judge : CacheNode → ResourceList → Amounts → String → ℤ → Verdict
judge node kubernetes_allocatable upper_bound name request =
    if leb_ℤ request (pos 0)
    then enough
    else if (name == "pods")
        && kubernetes_pods_allocatable_omitted kubernetes_allocatable
        && zero_or_absent name node.idle
        && zero_or_absent name node.allocatable
    then insufficient (
        shortage name request " > futureIdle " (pos 0)
          " because node status.allocatable omits pods")
    else if not (is_some (lookup name node.idle)) || not (is_some (lookup name node.allocatable))
    then (if present (lookup name kubernetes_allocatable)
        then missing (name <> " (present only in Kubernetes allocatable)")
        else insufficient (
            shortage name request " > futureIdle " (pos 0)
              " because the resource is absent from both Volcano cache and Kubernetes allocatable"))
    else if ltb_ℤ (value_of name upper_bound) request
    then insufficient (shortage name request " > idle+releasing " (value_of name upper_bound) "")
    else enough

-- The lists that the loop fills. A line of `insufficient` stands beside its name, by which
-- `sort.Strings` orders the lines: a name is the beginning of its line, and a space follows it.
pub record Lists : Type 0 where
  pub missing_names : List String
  pub lines : List (String × Message)

-- `insufficientResources`
abbrev pub names_of : List (String × Message) → List String
names_of [] = []
names_of ((name, line) ∷ rest) = name ∷ names_of rest

abbrev pub add_verdict : String → Verdict → Lists → Lists
add_verdict name enough l = l
add_verdict name (missing m) l = record l { missing_names = l.missing_names ++ m ∷ [] }
add_verdict name (insufficient m) l = record l { lines = l.lines ++ (name, m) ∷ [] }

unfoldable pub judge_loop : CacheNode → ResourceList → Amounts → Lists → Amounts → Lists
unfolding judge
judge_loop node k upper_bound l [] = l
judge_loop node k upper_bound l ((name, request) ∷ requests) =
    judge_loop node k upper_bound (add_verdict name (judge node k upper_bound name request) l)
      requests

-- `strings.Join(lines, "; ")`
abbrev pub join : List (String × Message) → Message
join [] = []
join ((name, line) ∷ []) = line
join ((name, line) ∷ rest) = line ++ text "; " ∷ join rest

future_idle_sources : List String
future_idle_sources =
    "pkg/scheduler/api/node_info.go:FutureIdle" ∷ "SIGUSR2 Node (...).idle/releasing" ∷ []

-- The check that the filled lists give, and the names of the short resources.
unfoldable pub fit_check :
    Amounts → CacheNode → ResourceList → Amounts → Lists → Check × List String
unfolding future_idle_sources
fit_check requests node k upper_bound l =
    if not (is_empty l.lines)
    then (
      with_evidence
          (object (
            field "request" (of_amounts requests) (
              field "idle" (of_amounts node.idle) (
                field "releasing" (of_amounts node.releasing) (
                  field "upperBound" (of_amounts upper_bound)
                    (field "insufficientResources" (of_names (names_of l.lines)) end))))))
          (known "node.resources" "allocate"
            "Requested resources fit Volcano FutureIdle upper bound" false
            (join (sort_by (λ (name, line). name) l.lines)
              ++ text "; even the idle+releasing upper bound is insufficient" ∷ [])
            future_idle_sources),
      names_of l.lines,
    )
    else if not (is_empty l.missing_names)
    then (
      unknown "node.resources" "allocate" "Requested resources fit Volcano FutureIdle"
          (text "cache dump omits requested resource dimensions: "
            ∷ strings (sort_strings l.missing_names)
            ∷ text "; plugin-private device state may own those resources"
            ∷ [])
          (object (
            field "request" (of_amounts requests) (
              field "idle" (of_amounts node.idle) (
                field "releasing" (of_amounts node.releasing) (
                  field "upperBound" (of_amounts upper_bound)
                    (field "k8sAllocatable" (of_amounts (resource_list_values k)) end))))))
          future_idle_sources,
      [],
    )
    else (
      unknown "node.resources" "allocate" "Requested resources fit Volcano FutureIdle"
          (plain
            "idle+releasing can fit, but the dump omits Pipelined from FutureIdle=Idle+Releasing-Pipelined, so a pass cannot be proven")
          (object (
            field "request" (of_amounts requests) (
              field "idle" (of_amounts node.idle) (
                field "releasing" (of_amounts node.releasing)
                  (field "upperBound" (of_amounts upper_bound) end)))))
          future_idle_sources,
      [],
    )

unfoldable pub resource_fit_check : Amounts → CacheNode → ResourceList → Check × List String
unfolding judge_loop fit_check
resource_fit_check requests node k =
    let upper_bound = add_resources (clone_resources node.idle) node.releasing in
    fit_check requests node k upper_bound
      (judge_loop node k upper_bound (record { missing_names = []; lines = [] }) requests)
