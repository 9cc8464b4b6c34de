-- ===== src/Snapshot/Capability.antt =====
-- What the queues leave of the nodes to one of them, resource by resource: an account of
-- `real_capability` that keeps no maps.
use volens.Base.{
  String, ◌≡◌, refl, sym, subst, ◌∙◌, ap, ap₂, Option, none, some, List, [], ◌∷◌, All, arith,
}
use volens.Base.Int.{ℤ, pos, ◌+ℤ◌, ◌-ℤ◌, +ℤ_assoc, zero_+ℤ}
use volens.Base.Dict.{Dict, lookup, NodupKeys}
use volens.Cluster.{Amounts, Queue, CacheNode, CacheDump}
use volens.Snapshot.Quota.{
  resource_list_values, amount_of, add_resource_values, sub_resource_values,
}
use volens.Snapshot.Priority.{resource_list_values-NodupKeys}
use volens.Snapshot.Arithmetic.{
  lookup-add_resource_values, lookup-sub_resource_values, min_of, lookup-min_resource_values,
  add_resource_values-NodupKeys, sub_resource_values-NodupKeys, min_resource_values-NodupKeys,
}
use volens.Snapshot.{total_node_allocatable, total_guarantee, allocatable_of, real_capability}

-- Sums and differences of amounts that may be absent.
abbrev pub plus : Option ℤ → Option ℤ → Option ℤ
plus a none = a
plus none (some b) = some b
plus (some a) (some b) = some (a +ℤ b)

abbrev pub minus : Option ℤ → Option ℤ → Option ℤ
minus a none = a
minus none (some b) = some (pos 0 -ℤ b)
minus (some a) (some b) = some (a -ℤ b)

plus_assoc : (a b c : Option ℤ) → plus (plus a b) c ≡ plus a (plus b c)
plus_assoc a b none = refl
plus_assoc a none (some c) = refl
plus_assoc none (some b) (some c) = refl
plus_assoc (some a) (some b) (some c) = ap some (+ℤ_assoc a b c)

plus-none : (a : Option ℤ) → plus none a ≡ a
plus-none none = refl
plus-none (some a) = refl

add_is_plus :
    (n : String) (target source : Amounts)
    → NodupKeys source
    → lookup n (add_resource_values target source) ≡ plus (lookup n target) (lookup n source)
add_is_plus n target source h =
    ground (arith, lookup-add_resource_values n target source h, zero_+ℤ (amount_of n source))

sub_is_minus :
    (n : String) (target source : Amounts)
    → NodupKeys source
    → lookup n (sub_resource_values target source) ≡ minus (lookup n target) (lookup n source)
sub_is_minus n target source h = ground (arith, lookup-sub_resource_values n target source h)

-- What the nodes have of a resource, together.
abbrev pub allocatable_sum : String → Dict CacheNode → Option ℤ
allocatable_sum n [] = none
allocatable_sum n ((name, node) ∷ nodes) =
    plus (lookup n node.allocatable) (allocatable_sum n nodes)

-- What is guaranteed to the queues, together.
abbrev pub guarantee_sum : String → List Queue → Option ℤ
guarantee_sum n [] = none
guarantee_sum n (queue ∷ queues) =
    plus (lookup n (resource_list_values queue.guarantee)) (guarantee_sum n queues)

abbrev pub AreMaps : Dict CacheNode → Type 0
AreMaps = All (λ (name, node). NodupKeys node.allocatable)

total_node_allocatable-sum :
    (n : String) (result : Amounts) (nodes : Dict CacheNode)
    → AreMaps nodes
    → lookup n (total_node_allocatable result nodes)
      ≡ plus (lookup n result) (allocatable_sum n nodes)
unfolding total_node_allocatable
total_node_allocatable-sum n result [] h = refl
total_node_allocatable-sum n result ((name, node) ∷ nodes) (u, h) =
    total_node_allocatable-sum n (add_resource_values result node.allocatable) nodes h
    ∙ ap (λ a. plus a (allocatable_sum n nodes)) (add_is_plus n result node.allocatable u)
    ∙ plus_assoc (lookup n result) (lookup n node.allocatable) (allocatable_sum n nodes)

total_guarantee-sum :
    (n : String) (result : Amounts) (queues : List Queue)
    → lookup n (total_guarantee result queues) ≡ plus (lookup n result) (guarantee_sum n queues)
unfolding total_guarantee
total_guarantee-sum n result [] = refl
total_guarantee-sum n result (queue ∷ queues) =
    let own = resource_list_values queue.guarantee in
    total_guarantee-sum n (add_resource_values result own) queues
    ∙ ap (λ a. plus a (guarantee_sum n queues))
        (add_is_plus n result own (resource_list_values-NodupKeys queue.guarantee))
    ∙ plus_assoc (lookup n result) (lookup n own) (guarantee_sum n queues)

total_guarantee-NodupKeys :
    (result : Amounts) (queues : List Queue)
    → NodupKeys result
    → NodupKeys (total_guarantee result queues)
unfolding total_guarantee
total_guarantee-NodupKeys result [] h = h
total_guarantee-NodupKeys result (queue ∷ queues) h =
    total_guarantee-NodupKeys (add_resource_values result (resource_list_values queue.guarantee))
      queues (add_resource_values-NodupKeys result (resource_list_values queue.guarantee) h)

total_node_allocatable-NodupKeys :
    (result : Amounts) (nodes : Dict CacheNode)
    → NodupKeys result
    → NodupKeys (total_node_allocatable result nodes)
unfolding total_node_allocatable
total_node_allocatable-NodupKeys result [] h = h
total_node_allocatable-NodupKeys result ((name, node) ∷ nodes) h =
    total_node_allocatable-NodupKeys (add_resource_values result node.allocatable) nodes
      (add_resource_values-NodupKeys result node.allocatable h)

abbrev pub nodes_of : CacheDump → Dict CacheNode
nodes_of dump = elim dump.nodes [ none ↦ [] | some nodes ↦ nodes ]

allocatable_of-total :
    (dump : CacheDump) → allocatable_of dump ≡ total_node_allocatable [] (nodes_of dump)
allocatable_of-total dump = go dump.nodes
  where
    go :
        (nodes : Option (Dict CacheNode))
        → (elim nodes [
          | none ↦ total_node_allocatable [] []
          | some d ↦ total_node_allocatable [] d
        ])
          ≡ total_node_allocatable [] (elim nodes [ none ↦ [] | some d ↦ d ])
    go none = refl
    go (some d) = refl

-- A queue's capability: what the nodes have, less what is guaranteed to all queues, with what is
-- guaranteed to this one, and no more than its own limit.
abbrev pub capability_sum : String → CacheDump → List Queue → Queue → Option ℤ
capability_sum n dump queues queue =
    min_of
      (plus (minus (allocatable_sum n (nodes_of dump)) (guarantee_sum n queues))
        (lookup n (resource_list_values queue.guarantee)))
      (lookup n (resource_list_values queue.capability))

pub lookup-real_capability :
    (n : String) (dump : CacheDump) (queues : List Queue) (queue : Queue)
    → AreMaps (nodes_of dump)
    → lookup n (real_capability dump queues queue) ≡ capability_sum n dump queues queue
unfolding real_capability lookup
lookup-real_capability n dump queues queue h =
    let own = resource_list_values queue.guarantee in
    let limit = resource_list_values queue.capability in
    let total = allocatable_of dump in
    let guarantees = total_guarantee [] queues in
    lookup-min_resource_values n (add_resource_values (sub_resource_values total guarantees) own)
      limit (resource_list_values-NodupKeys queue.capability)
    ∙ ap (λ a. min_of a (lookup n limit))
        (add_is_plus n (sub_resource_values total guarantees) own
            (resource_list_values-NodupKeys queue.guarantee)
          ∙ ap (λ a. plus a (lookup n own))
              (sub_is_minus n total guarantees (total_guarantee-NodupKeys [] queues tt)
                ∙ ap₂ minus
                    (ap (lookup n) (allocatable_of-total dump)
                      ∙ total_node_allocatable-sum n [] (nodes_of dump) h
                      ∙ plus-none (allocatable_sum n (nodes_of dump)))
                    (total_guarantee-sum n [] queues ∙ plus-none (guarantee_sum n queues))))

pub real_capability-NodupKeys :
    (dump : CacheDump) (queues : List Queue) (queue : Queue)
    → NodupKeys (real_capability dump queues queue)
unfolding real_capability
real_capability-NodupKeys dump queues queue =
    min_resource_values-NodupKeys _ (resource_list_values queue.capability) (
      add_resource_values-NodupKeys _ (resource_list_values queue.guarantee) (
        sub_resource_values-NodupKeys (allocatable_of dump) (total_guarantee [] queues) (
          subst NodupKeys (sym (allocatable_of-total dump))
            (total_node_allocatable-NodupKeys [] (nodes_of dump) tt))))
