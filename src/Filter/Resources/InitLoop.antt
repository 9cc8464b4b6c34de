-- ===== src/Filter/Resources/InitLoop.antt =====
-- What the loops of `pod_requests` over the containers leave under each name.
use volens.Base.{
  ℕ, String, ◌≡◌, sym, ◌∙◌, ap, ap₂, List, [], ◌∷◌, arith, if◌then◌else◌, All, Bool-cases, inl, inr,
}
use volens.Base.Int.{
  ℤ, pos, negsuc, +ℤ_comm, ◌+ℤ◌, ◌≤ℤ◌, max_ℤ, scale, +ℤ_zero, +ℤ_assoc, max_ℤ_bounds, int_laws,
}
use volens.Base.Dict.{NodupKeys, lookup}
use volens.Kube.{Quantity, ResourceList, Container}
use volens.Cluster.{Amounts}
use volens.Filter.Resources.{
  value_of, resource_value, resource_list_values, add_resources, max_resources, is_restartable,
  add_containers, InitState, init_step, init_loop,
}
use volens.Filter.Resources.Laws.{
  IsNonneg, value_of-add_resources, value_of-max_resources, add_resources-NodupKeys,
  max_resources-NodupKeys, resource_list_values-NodupKeys, max_ℤ_zero,
}
use volens.Filter.Resources.Spec.{IsValidList, AreValid, of_list, app_sum, sidecar_sum, init_peak}

scale_nonneg : (k : ℕ) (a : ℤ) → pos 0 ≤ℤ a → pos 0 ≤ℤ scale k a
unfolding scale
scale_nonneg k (pos n) h = ground arith
scale_nonneg k (negsuc n) h = absurd (omega arith)

resource_value_nonneg :
    (n : String) (q : Quantity)
    → pos 0 ≤ℤ q.milli_value
    → pos 0 ≤ℤ q.value
    → pos 0 ≤ℤ resource_value n q
unfolding resource_value
resource_value_nonneg n q h k = ground (arith, scale_nonneg 1000 q.value)

pub of_list-IsNonneg :
    (l : ResourceList)
    → All (λ (_, q). (pos 0 ≤ℤ q.milli_value) × (pos 0 ≤ℤ q.value)) l
    → IsNonneg (resource_list_values l)
unfolding resource_list_values lookup
of_list-IsNonneg [] h n = omega arith
of_list-IsNonneg ((k, q) ∷ l) ((hm, hv), h) n =
    ground (arith, of_list-IsNonneg l h n, resource_value_nonneg k q hm hv)

pub value_of-add_containers :
    (n : String) (d : Amounts) (cs : List Container)
    → AreValid cs
    → value_of n (add_containers d cs) ≡ value_of n d +ℤ app_sum n cs
unfolding add_containers
value_of-add_containers n d [] h = sym (+ℤ_zero (value_of n d))
value_of-add_containers n d (c ∷ cs) (v, h) =
    value_of-add_containers n (add_resources d (resource_list_values c.requests)) cs h
    ∙ ap (λ x. x +ℤ app_sum n cs)
        (value_of-add_resources n d _ (resource_list_values-NodupKeys c.requests v.0))
    ∙ +ℤ_assoc (value_of n d) (of_list n c.requests) (app_sum n cs)

pub record Inv (s : InitState) : Type 0 where
  pub restartable_keys : NodupKeys s.restartable_init
  pub max_keys : NodupKeys s.max_init
  pub restartable_nonneg : IsNonneg s.restartable_init
  pub max_nonneg : IsNonneg s.max_init

add_resources-IsNonneg :
    (d s : Amounts) → NodupKeys s → IsNonneg d → IsNonneg s → IsNonneg (add_resources d s)
add_resources-IsNonneg d s k hd hs n =
    rw (value_of-add_resources n d s k) (omega (int_laws, hd n, hs n))

max_resources-IsNonneg : (d s : Amounts) → NodupKeys s → IsNonneg d → IsNonneg (max_resources d s)
max_resources-IsNonneg d s k hd n =
    rw (value_of-max_resources n d s k hd)
      (omega (arith, hd n, max_ℤ_bounds (value_of n d) (value_of n s)))

-- One init container, for a valid state of the loop.
module _ (n : String) (s : InitState) (c : Container) (inv : Inv s)
    (v : IsValidList c.requests) where
  abbrev current : Amounts
  current = resource_list_values c.requests

  current_keys : NodupKeys current
  current_keys = resource_list_values-NodupKeys c.requests v.0

  current-IsNonneg : IsNonneg current
  current-IsNonneg = of_list-IsNonneg c.requests v.1

  step_requests :
      value_of n (init_step s c).requests
      ≡ value_of n s.requests +ℤ (if is_restartable c then of_list n c.requests else pos 0)
  unfolding init_step
  step_requests = ground (
    arith,
    value_of-add_resources n s.requests current current_keys,
    +ℤ_zero (value_of n s.requests),
  )

  step_restartable : value_of n (init_step s c).restartable_init ≡ (
      if is_restartable c
      then value_of n s.restartable_init +ℤ of_list n c.requests
      else value_of n s.restartable_init)
  unfolding init_step
  step_restartable =
      ground (arith, value_of-add_resources n s.restartable_init current current_keys)

  step_max :
      value_of n (init_step s c).max_init
      ≡ max_ℤ (value_of n s.max_init) (value_of n s.restartable_init +ℤ of_list n c.requests)
  unfolding init_step
  step_max = ground (
    arith,
    value_of-add_resources n s.restartable_init current current_keys,
    value_of-add_resources n current s.restartable_init inv.restartable_keys,
    +ℤ_comm (value_of n current) (value_of n s.restartable_init),
    value_of-max_resources n s.max_init (add_resources s.restartable_init current)
        (add_resources-NodupKeys s.restartable_init current inv.restartable_keys) inv.max_nonneg,
    value_of-max_resources n s.max_init (add_resources current s.restartable_init)
        (add_resources-NodupKeys current s.restartable_init current_keys) inv.max_nonneg,
  )

max_resources-Inv :
    (s : InitState) (e : Amounts)
    → Inv s
    → NodupKeys e
    → NodupKeys (max_resources s.max_init e) × IsNonneg (max_resources s.max_init e)
max_resources-Inv s e inv k = (
  max_resources-NodupKeys s.max_init e inv.max_keys,
  max_resources-IsNonneg s.max_init e k inv.max_nonneg,
)

init_step-Inv :
    (s : InitState) (c : Container) → Inv s → IsValidList c.requests → Inv (init_step s c)
unfolding init_step
init_step-Inv s c inv v =
    let current = resource_list_values c.requests in
    let keys = resource_list_values-NodupKeys c.requests v.0 in
    let sum_keys = add_resources-NodupKeys s.restartable_init current inv.restartable_keys in
    let max = max_resources-Inv s (add_resources s.restartable_init current) inv sum_keys in
    let max' =
      max_resources-Inv s (add_resources current s.restartable_init) inv
        (add_resources-NodupKeys current s.restartable_init keys) in
    elim (Bool-cases (is_restartable c)) [
      | inl r ↦ rw r record {
        restartable_keys = sum_keys;
        max_keys = max.0;
        restartable_nonneg =
            add_resources-IsNonneg s.restartable_init current keys inv.restartable_nonneg
              (of_list-IsNonneg c.requests v.1);
        max_nonneg = max.1;
      }
      | inr r ↦ rw r record {
        restartable_keys = inv.restartable_keys;
        max_keys = max'.0;
        restartable_nonneg = inv.restartable_nonneg;
        max_nonneg = max'.1;
      }
    ]

max_ℤ_assoc : (a b c : ℤ) → max_ℤ (max_ℤ a b) c ≡ max_ℤ a (max_ℤ b c)
unfolding max_ℤ
max_ℤ_assoc a b c = ground arith

pub init_loop-requests :
    (n : String) (s : InitState) (cs : List Container)
    → Inv s
    → AreValid cs
    → value_of n (init_loop s cs).requests ≡ value_of n s.requests +ℤ sidecar_sum n cs
unfolding init_loop
init_loop-requests n s [] inv h = sym (+ℤ_zero (value_of n s.requests))
init_loop-requests n s (c ∷ cs) inv (v, h) =
    init_loop-requests n (init_step s c) cs (init_step-Inv s c inv v) h
    ∙ ap (λ x. x +ℤ sidecar_sum n cs) (step_requests n s c inv v)
    ∙ +ℤ_assoc (value_of n s.requests) (if is_restartable c then of_list n c.requests else pos 0)
        (sidecar_sum n cs)

pub init_loop-max_init :
    (n : String) (s : InitState) (cs : List Container)
    → Inv s
    → AreValid cs
    → value_of n (init_loop s cs).max_init
      ≡ max_ℤ (value_of n s.max_init) (init_peak n (value_of n s.restartable_init) cs)
unfolding init_loop
init_loop-max_init n s [] inv h = sym (max_ℤ_zero (value_of n s.max_init) (inv.max_nonneg n))
init_loop-max_init n s (c ∷ cs) inv (v, h) =
    init_loop-max_init n (init_step s c) cs (init_step-Inv s c inv v) h
    ∙ ap₂ (λ m r. max_ℤ m (init_peak n r cs)) (step_max n s c inv v) (step_restartable n s c inv v)
    ∙ max_ℤ_assoc (value_of n s.max_init) (value_of n s.restartable_init +ℤ of_list n c.requests) (
        init_peak n
          (if is_restartable c
            then value_of n s.restartable_init +ℤ of_list n c.requests
            else value_of n s.restartable_init)
          cs)

pub init_loop-Inv :
    (s : InitState) (cs : List Container) → Inv s → AreValid cs → Inv (init_loop s cs)
unfolding init_loop
init_loop-Inv s [] inv h = inv
init_loop-Inv s (c ∷ cs) inv (v, h) = init_loop-Inv (init_step s c) cs (init_step-Inv s c inv v) h
