-- ===== src/Filter/Fit/Laws.antt =====
-- What the resource check of a node says, against an account of each resource by itself.
use mathlib.Core.List.{append-nil, append_assoc}
use volens.Base.{
  String, ◌≡◌, refl, sym, ap, ◌∙◌, Bool, true, false, not, ◌&&◌, ◌||◌, List, [], ◌∷◌, ◌++◌, ◌==◌,
  is_some, is_empty, arith, if◌then◌else◌,
}
use volens.Base.Int.{ℤ, pos, ◌+ℤ◌, ltb_ℤ}
use volens.Base.Dict.{lookup, NodupKeys}
use volens.Kube.{ResourceList}
use volens.Cluster.{Amounts, CacheNode}
use volens.Model.{Message}
use volens.Model.Checks.{is_pass, is_failure}
use volens.Filter.Resources.{value_of, add_resources}
use volens.Filter.Resources.Laws.{value_of-add_resources}
use volens.Filter.NodeChecks.{kubernetes_pods_allocatable_omitted}
use volens.Filter.Fit.{
  Verdict, enough, missing, insufficient, zero_or_absent, present, judge, Lists, names_of,
  add_verdict, judge_loop, fit_check, resource_fit_check,
}

-- The cache dump gives both amounts of the resource.
abbrev pub in_cache : CacheNode → String → Bool
in_cache node name = is_some (lookup name node.idle) && is_some (lookup name node.allocatable)

-- The node has the resource pods neither by its status nor by the cache dump.
abbrev pub no_pods : CacheNode → ResourceList → String → Bool
no_pods node k name =
    (name == "pods")
    && kubernetes_pods_allocatable_omitted k
    && zero_or_absent name node.idle
    && zero_or_absent name node.allocatable

-- A requested resource is short where idle and releasing amounts do not reach the request, where
-- the node has no pods, or where neither the cache dump nor the node's status has the resource.
abbrev pub is_short : CacheNode → ResourceList → String → ℤ → Bool
is_short node k name request =
    ltb_ℤ (pos 0) request
    && (if in_cache node name
        then ltb_ℤ (value_of name node.idle +ℤ value_of name node.releasing) request
          || no_pods node k name
        else not (present (lookup name k)))

abbrev pub short_names : CacheNode → ResourceList → Amounts → List String
short_names node k [] = []
short_names node k ((name, request) ∷ requests) =
    let rest = short_names node k requests in
    if is_short node k name request then name ∷ rest else rest

abbrev is_insufficient : Verdict → Bool
is_insufficient (insufficient m) = true
is_insufficient enough = false
is_insufficient (missing m) = false

abbrev future_idle : CacheNode → Amounts
future_idle node = add_resources node.idle node.releasing

judge-is_short :
    (node : CacheNode) (k : ResourceList) (name : String) (request : ℤ)
    → NodupKeys node.releasing
    → is_insufficient (judge node k (future_idle node) name request) ≡ is_short node k name request
unfolding judge kubernetes_pods_allocatable_omitted
judge-is_short node k name request h =
    ground (arith, value_of-add_resources name node.idle node.releasing h)

names_of-append :
    (xs ys : List (String × Message)) → names_of (xs ++ ys) ≡ names_of xs ++ names_of ys
names_of-append [] ys = refl
names_of-append ((n, l) ∷ xs) ys = ap (λ r. n ∷ r) (names_of-append xs ys)

names-add_verdict :
    (name : String) (v : Verdict) (l : Lists)
    → names_of (add_verdict name v l).lines
      ≡ names_of l.lines ++ (if is_insufficient v then name ∷ [] else [])
names-add_verdict name enough l = sym (append-nil (names_of l.lines))
names-add_verdict name (missing m) l = sym (append-nil (names_of l.lines))
names-add_verdict name (insufficient m) l = names_of-append l.lines ((name, m) ∷ [])

step_names :
    (b : Bool) (name : String) (a rest : List String)
    → (a ++ (if b then name ∷ [] else [])) ++ rest ≡ a ++ (if b then name ∷ rest else rest)
step_names true name a rest = append_assoc a (name ∷ []) rest
step_names false name a rest = rw (append-nil a)

names-judge_loop :
    (node : CacheNode) (k : ResourceList) (l : Lists) (requests : Amounts)
    → NodupKeys node.releasing
    → names_of (judge_loop node k (future_idle node) l requests).lines
      ≡ names_of l.lines ++ short_names node k requests
unfolding judge_loop
names-judge_loop node k l [] h = sym (append-nil (names_of l.lines))
names-judge_loop node k l ((name, request) ∷ requests) h =
    let v = judge node k (future_idle node) name request in
    names-judge_loop node k (add_verdict name v l) requests h
    ∙ ap (λ ns. ns ++ short_names node k requests) (names-add_verdict name v l)
    ∙ step_names (is_insufficient v) name (names_of l.lines) (short_names node k requests)
    ∙ ap
        (λ b.
          names_of l.lines
          ++ (if b then name ∷ short_names node k requests else short_names node k requests))
        (judge-is_short node k name request h)

is_empty-names_of : (l : List (String × Message)) → is_empty (names_of l) ≡ is_empty l
is_empty-names_of [] = refl
is_empty-names_of (x ∷ l) = refl

fit_check_shape :
    (requests : Amounts) (node : CacheNode) (k : ResourceList) (upper_bound : Amounts) (l : Lists)
    → ((fit_check requests node k upper_bound l).1 ≡ names_of l.lines)
      × (is_pass (fit_check requests node k upper_bound l).0 ≡ false)
      × (is_failure (fit_check requests node k upper_bound l).0 ≡ not (is_empty l.lines))
unfolding fit_check
fit_check_shape requests node k upper_bound l = go l.missing_names l.lines
  where
    go :
        (ms : List String) (ls : List (String × Message))
        → let c =
            fit_check requests node k upper_bound (record { missing_names = ms; lines = ls }) in
          (c.1 ≡ names_of ls) × (is_pass c.0 ≡ false) × (is_failure c.0 ≡ not (is_empty ls))
    go ms (x ∷ ls) = (refl, refl, refl)
    go (m ∷ ms) [] = (refl, refl, refl)
    go [] [] = (refl, refl, refl)

pub resource_fit_check-is_pass :
    (requests : Amounts) (node : CacheNode) (k : ResourceList)
    → is_pass (resource_fit_check requests node k).0 ≡ false
unfolding resource_fit_check
resource_fit_check-is_pass requests node k =
    (fit_check_shape requests node k (future_idle node)
      (judge_loop node k (future_idle node) (record { missing_names = []; lines = [] }) requests)).1

-- For a cache node that lists each releasing resource once, the resource check names exactly the
-- short resources, in the order of the requests. It never passes, and it is a determinate failure
-- exactly when some requested resource is short.
pub resource_fit_check_lem :
    (requests : Amounts) (node : CacheNode) (k : ResourceList)
    → NodupKeys node.releasing
    → ((resource_fit_check requests node k).1 ≡ short_names node k requests)
      × (is_pass (resource_fit_check requests node k).0 ≡ false)
      × (is_failure (resource_fit_check requests node k).0
          ≡ not (is_empty (short_names node k requests)))
unfolding resource_fit_check
resource_fit_check_lem requests node k h =
    let l =
      judge_loop node k (future_idle node) (record { missing_names = []; lines = [] }) requests in
    let (names, pass, fail) = fit_check_shape requests node k (future_idle node) l in
    let e = names-judge_loop node k (record { missing_names = []; lines = [] }) requests h in
    (names ∙ e, pass, fail ∙ ap not (sym (is_empty-names_of l.lines) ∙ ap is_empty e))
