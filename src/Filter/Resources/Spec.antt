-- ===== src/Filter/Resources/Spec.antt =====
-- Kubernetes' effective request of a Pod, resource by resource: an account of `pod_requests` that
-- keeps no maps.
use volens.Base.{String, List, [], ◌∷◌, ◌==◌, if◌then◌else◌, All}
use volens.Base.Int.{ℤ, pos, ◌+ℤ◌, ◌≤ℤ◌, max_ℤ}
use volens.Base.Dict.{NodupKeys}
use volens.Kube.{ResourceList, Container, Pod}
use volens.Filter.Resources.{value_of, resource_list_values, is_restartable}

-- A resource list of a validated object: each name once, and no negative quantity.
abbrev pub IsValidList : ResourceList → Type 0
IsValidList l = NodupKeys l × All (λ (_, q). (pos 0 ≤ℤ q.milli_value) × (pos 0 ≤ℤ q.value)) l

abbrev pub AreValid : List Container → Type 0
AreValid = All (λ c. IsValidList c.requests)

pub record IsValidPod (pod : Pod) : Type 0 where
  pub containers : AreValid pod.spec.containers
  pub init_containers : AreValid pod.spec.init_containers
  pub overhead : IsValidList pod.spec.overhead

abbrev pub of_list : String → ResourceList → ℤ
of_list n l = value_of n (resource_list_values l)

-- The sum over the containers.
abbrev pub app_sum : String → List Container → ℤ
app_sum n [] = pos 0
app_sum n (c ∷ cs) = of_list n c.requests +ℤ app_sum n cs

-- The sum over the init containers that keep running.
abbrev pub sidecar_sum : String → List Container → ℤ
sidecar_sum n [] = pos 0
sidecar_sum n (c ∷ cs) =
    (if is_restartable c then of_list n c.requests else pos 0) +ℤ sidecar_sum n cs

-- The largest amount in use while an init container starts: its own, and that of the sidecars
-- (`running`) started before it.
abbrev pub init_peak : String → ℤ → List Container → ℤ
init_peak n running [] = pos 0
init_peak n running (c ∷ cs) =
    max_ℤ (running +ℤ of_list n c.requests)
      (init_peak n (if is_restartable c then running +ℤ of_list n c.requests else running) cs)

-- One Pod takes one of the resource "pods".
abbrev pub implicit : String → ℤ
implicit n = if n == "pods" then pos 1000 else pos 0

abbrev pub effective_request : String → Pod → ℤ
effective_request n pod =
    max_ℤ (implicit n +ℤ app_sum n pod.spec.containers +ℤ sidecar_sum n pod.spec.init_containers)
      (init_peak n (pos 0) pod.spec.init_containers)
    +ℤ of_list n pod.spec.overhead
