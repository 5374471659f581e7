-- ===== src/Tests/Lineages.antt =====
-- The theorems on shard discovery, on concrete lists of shards.
use libvegas.Base.{true, List, [], ◌∷◌, Option, none, some, ◌≡◌}
use mathlib.Core.List.Perm
use libvegas.Base.Run.{Returns, returned}
use libvegas.Messages.{Shard}
use libvegas.Discovery.{new_shard_discovery_service, discover, get_all, get_roots}
use libvegas.Discovery.Enumerate.{Page, ListShardsInput, enumerate_loop, enumerate_all_shards}
use libvegas.Discovery.Kept.{IsKept, Grown}
use libvegas.Discovery.Update.{AreKnown, discover_lem, queries-Returns, new-IsKept}
use libvegas.Discovery.Watch.{start, start-IsKept}
use libvegas.Tests.{root}

-- A child that is listed before its parent.
abbrev family : List Shard
family =
    record { shard_id = "s1"; parent_shard_id = some "s0"; adjacent_parent_shard_id = none }
    ∷ root "s0"
    ∷ []

discover_lem_example :
    Returns
      (λ d. Grown new_shard_discovery_service d × AreKnown family d)
      (discover family new_shard_discovery_service)
discover_lem_example = discover_lem family new_shard_discovery_service new-IsKept

queries-Returns_example :
    Returns
      (λ d.
        Returns (λ l. Unit {0}) (get_all (λ m. m) d)
        × Returns (λ l. Unit {0}) (get_roots (λ m. m) d))
      (discover family new_shard_discovery_service)
queries-Returns_example =
    queries-Returns (λ m. m) (λ m. Perm.refl m) family new_shard_discovery_service new-IsKept

-- A listing that fails, and one of one page.
abbrev one_page : ListShardsInput → Option Page
one_page request = some (record { shards = root "s0" ∷ root "s1" ∷ []; next_token = none })

abbrev listings : List (ListShardsInput → Option Page)
listings = (λ request. none) ∷ one_page ∷ []

failed_first : Returns (λ o. Unit {0}) (enumerate_all_shards (λ request. none) "orders" 3)
unfolding enumerate_all_shards enumerate_loop
failed_first = returned tt

one_listed : Returns (λ o. Unit {0}) (enumerate_all_shards one_page "orders" 3)
unfolding enumerate_all_shards enumerate_loop
one_listed = returned tt

start-IsKept_example :
    Returns
      (λ w. (w.initialised ≡ true) × IsKept w.service)
      (start "orders" 3 listings new_shard_discovery_service)
start-IsKept_example =
    start-IsKept "orders" 3 listings new_shard_discovery_service (failed_first, (one_listed, tt))
      new-IsKept
