-- ===== src/Examples/Balancing.antt =====
-- The balancer's theorems on a pool of two backends.
use llama_proxy.Prelude.{not, ◌&&◌, List, [], ◌∷◌, Text, member}
use llama_proxy.Balancer.{Balancer, update, select_excluding, select_from_tag_excluding, has_tag}
use llama_proxy.Balancer.Sync.{IsSynced, update-IsSynced}
use llama_proxy.Balancer.Selection.{
  IsChoice, select_excluding-IsChoice, select_from_tag_excluding-IsChoice,
}
use llama_proxy.Examples.{in_turn, name_a, tag_g, two_backends, empty_pool}

abbrev pool : Balancer (List Text)
pool = update in_turn empty_pool two_backends

synced : IsSynced pool
synced = update-IsSynced in_turn empty_pool two_backends

update-IsSynced_example : IsSynced pool
update-IsSynced_example = update-IsSynced in_turn empty_pool two_backends

select_excluding-IsChoice_example :
    IsChoice pool
      (λ n d. not (member n (name_a ∷ [])))
      (select_excluding in_turn pool (name_a ∷ [])).0
select_excluding-IsChoice_example = select_excluding-IsChoice in_turn pool synced (name_a ∷ [])

select_from_tag_excluding-IsChoice_example :
    IsChoice pool
      (λ n d. has_tag tag_g d && not (member n (name_a ∷ [])))
      (select_from_tag_excluding in_turn pool tag_g (name_a ∷ [])).0
select_from_tag_excluding-IsChoice_example =
    select_from_tag_excluding-IsChoice in_turn pool synced tag_g (name_a ∷ [])
