-- ===== src/Filter/Resources/Formula.antt =====
-- `pod_requests` computes the effective request.
use volens.Base.{
  Bool, true, false, All, String, ◌≡◌, refl, ◌∙◌, ap, ap₂, List, [], ◌∷◌, arith, if◌then◌else◌, All,
  Bool-cases, inl, inr,
}
use volens.Base.Int.{ℤ, pos, ◌+ℤ◌, ◌≤ℤ◌, max_ℤ, max_ℤ_bounds, int_laws}
use volens.Base.Dict.{lookup}
use volens.Kube.{Container, Pod}
use volens.Cluster.{Amounts}
use volens.Filter.Resources.{
  value_of, resource_list_values, max_resources, is_restartable, add_containers, InitState,
  init_loop, pod_requests,
}
use volens.Filter.Resources.Laws.{
  IsNonneg, value_of-add_resources, value_of-max_resources, resource_list_values-NodupKeys,
}
use volens.Filter.Resources.Spec.{
  AreValid, IsValidPod, of_list, app_sum, sidecar_sum, init_peak, implicit, effective_request,
}
use volens.Filter.Resources.InitLoop.{
  of_list-IsNonneg, value_of-add_containers, Inv, init_loop-requests, init_loop-max_init,
  init_loop-Inv,
}

start : Amounts → InitState
start requests = record { requests = requests; restartable_init = []; max_init = [] }

start-Inv : (requests : Amounts) → Inv (start requests)
unfolding start lookup
start-Inv requests = record {
  restartable_keys = tt;
  max_keys = tt;
  restartable_nonneg = λ n. omega arith;
  max_nonneg = λ n. omega arith;
}

value_of-nil : (n : String) → value_of n [] ≡ pos 0
unfolding lookup
value_of-nil n = refl

init_peak_nonneg : (n : String) (r : ℤ) (cs : List Container) → pos 0 ≤ℤ init_peak n r cs
init_peak_nonneg n r [] = omega arith
init_peak_nonneg n r (c ∷ cs) =
    let r' = if is_restartable c then r +ℤ of_list n c.requests else r in
    omega (
      arith,
      init_peak_nonneg n r' cs,
      max_ℤ_bounds (r +ℤ of_list n c.requests) (init_peak n r' cs),
    )

max_zero_ℤ : (a : ℤ) → pos 0 ≤ℤ a → max_ℤ (pos 0) a ≡ a
unfolding max_ℤ
max_zero_ℤ a h = ground arith

app_sum_nonneg : (n : String) (cs : List Container) → AreValid cs → pos 0 ≤ℤ app_sum n cs
app_sum_nonneg n [] h = omega arith
app_sum_nonneg n (c ∷ cs) (v, h) =
    omega (int_laws, app_sum_nonneg n cs h, of_list-IsNonneg c.requests v.1 n)

sidecar_sum_nonneg : (n : String) (cs : List Container) → AreValid cs → pos 0 ≤ℤ sidecar_sum n cs
sidecar_sum_nonneg n [] h = omega arith
sidecar_sum_nonneg n (c ∷ cs) (v, h) = elim (Bool-cases (is_restartable c)) [
  | inl r ↦ rw r (omega (int_laws, sidecar_sum_nonneg n cs h, of_list-IsNonneg c.requests v.1 n))
  | inr r ↦ rw r (omega (int_laws, sidecar_sum_nonneg n cs h))
]

implicit_nonneg : (n : String) → pos 0 ≤ℤ implicit n
implicit_nonneg n = ground arith

-- The maps of `pod_requests` before the overhead is added.
module _ (pod : Pod) (h : IsValidPod pod) where
  abbrev requests : Amounts
  requests = add_containers (("pods", pos 1000) ∷ []) pod.spec.containers

  abbrev final : InitState
  final = init_loop (start requests) pod.spec.init_containers

  final-requests :
      (n : String)
      → value_of n final.requests
        ≡ implicit n +ℤ app_sum n pod.spec.containers +ℤ sidecar_sum n pod.spec.init_containers
  unfolding start lookup
  final-requests n =
      init_loop-requests n (start requests) pod.spec.init_containers (start-Inv requests)
        h.init_containers
      ∙ ap (λ x. x +ℤ sidecar_sum n pod.spec.init_containers)
          (value_of-add_containers n (("pods", pos 1000) ∷ []) pod.spec.containers h.containers
            ∙ ap (λ x. x +ℤ app_sum n pod.spec.containers) (ground arith))

  final-requests-IsNonneg : IsNonneg final.requests
  final-requests-IsNonneg n = rw (final-requests n) (
      omega (
        int_laws,
        implicit_nonneg n,
        app_sum_nonneg n pod.spec.containers h.containers,
        sidecar_sum_nonneg n pod.spec.init_containers h.init_containers,
      ))

  final-max_init :
      (n : String) → value_of n final.max_init ≡ init_peak n (pos 0) pod.spec.init_containers
  unfolding start lookup
  final-max_init n =
      init_loop-max_init n (start requests) pod.spec.init_containers (start-Inv requests)
        h.init_containers
      ∙ max_zero_ℤ (init_peak n (pos 0) pod.spec.init_containers)
          (init_peak_nonneg n (pos 0) pod.spec.init_containers)

-- For a Pod with valid resource lists, the amount that `pod_requests` gives under each name is the
-- effective request: the larger of the sum over the running containers, with one "pods", and the
-- peak over the init containers, plus the overhead.
pub pod_requests-effective_request :
    (pod : Pod) (n : String)
    → IsValidPod pod
    → value_of n (pod_requests pod) ≡ effective_request n pod
unfolding pod_requests start
pod_requests-effective_request pod n h =
    let s = final pod h in
    value_of-add_resources n (max_resources s.requests s.max_init)
      (resource_list_values pod.spec.overhead)
      (resource_list_values-NodupKeys pod.spec.overhead h.overhead.0)
    ∙ ap (λ x. x +ℤ of_list n pod.spec.overhead)
        (value_of-max_resources n s.requests s.max_init
            (init_loop-Inv (start (requests pod h)) pod.spec.init_containers
              (start-Inv (requests pod h)) h.init_containers).max_keys
            (final-requests-IsNonneg pod h)
          ∙ ap₂ max_ℤ (final-requests pod h n) (final-max_init pod h n))

running_nonneg : (b : Bool) (r a : ℤ) → pos 0 ≤ℤ r → pos 0 ≤ℤ a → pos 0 ≤ℤ (if b then r +ℤ a else r)
running_nonneg true r a p q = omega int_laws
running_nonneg false r a p q = p

All-le_trans :
    (n : String) (a b : ℤ) (cs : List Container)
    → All (λ c. of_list n c.requests ≤ℤ a) cs
    → a ≤ℤ b
    → All (λ c. of_list n c.requests ≤ℤ b) cs
All-le_trans n a b [] h k = tt
All-le_trans n a b (c ∷ cs) (p, h) k = (omega arith, All-le_trans n a b cs h k)

All-weaken :
    (n : String) (a m o : ℤ) (cs : List Container)
    → All (λ c. of_list n c.requests ≤ℤ a) cs
    → a ≤ℤ m
    → All (λ c. of_list n c.requests +ℤ o ≤ℤ m +ℤ o) cs
All-weaken n a m o [] h k = tt
All-weaken n a m o (c ∷ cs) (p, h) k = (omega int_laws, All-weaken n a m o cs h k)

le_init_peak :
    (n : String) (r : ℤ) (cs : List Container)
    → AreValid cs
    → pos 0 ≤ℤ r
    → All (λ c. of_list n c.requests ≤ℤ init_peak n r cs) cs
le_init_peak n r [] h p = tt
le_init_peak n r (c ∷ cs) (v, h) p =
    let r' = if is_restartable c then r +ℤ of_list n c.requests else r in
    let bounds = max_ℤ_bounds (r +ℤ of_list n c.requests) (init_peak n r' cs) in
    let own = of_list-IsNonneg c.requests v.1 n in
    (
      omega (int_laws, bounds),
      All-le_trans n (init_peak n r' cs) (max_ℤ (r +ℤ of_list n c.requests) (init_peak n r' cs)) cs
          (le_init_peak n r' cs h
            (running_nonneg (is_restartable c) r (of_list n c.requests) p own))
          bounds.1,
    )

-- No container asks for more than the Pod: with valid resource lists, each init container's own
-- request and the sum of the containers' requests, plus the overhead, are at most the amount that
-- `pod_requests` gives.
pub requests_le_pod_requests :
    (pod : Pod) (n : String)
    → IsValidPod pod
    → (app_sum n pod.spec.containers +ℤ of_list n pod.spec.overhead
        ≤ℤ value_of n (pod_requests pod))
      × All
          (λ c.
            of_list n c.requests +ℤ of_list n pod.spec.overhead ≤ℤ value_of n (pod_requests pod))
          pod.spec.init_containers
requests_le_pod_requests pod n h =
    let running =
      implicit n +ℤ app_sum n pod.spec.containers +ℤ sidecar_sum n pod.spec.init_containers in
    let peak = init_peak n (pos 0) pod.spec.init_containers in
    rw (pod_requests-effective_request pod n h) (
      omega (
        int_laws,
        implicit_nonneg n,
        sidecar_sum_nonneg n pod.spec.init_containers h.init_containers,
        max_ℤ_bounds running peak,
      ),
      All-weaken n peak (max_ℤ running peak) (of_list n pod.spec.overhead) pod.spec.init_containers
          (le_init_peak n (pos 0) pod.spec.init_containers h.init_containers (omega arith))
          (max_ℤ_bounds running peak).1,
    )
