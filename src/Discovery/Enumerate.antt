-- ===== src/Discovery/Enumerate.antt =====
-- enumerateAllShards: the pages of Kinesis ListShards, one after another.
use libvegas.Base.{ℕ, zero, suc, List, [], ◌++◌, Option, none, some, String}
use libvegas.Base.Run.{Run, ok, out_of_fuel, ◌>>=◌}
use libvegas.Messages.{Shard}
use libvegas.Discovery.{ShardDiscoveryService, discover}

-- ListShardsOutput
pub record Page : Type 0 where
  pub shards : List Shard
  pub next_token : Option String

-- ListShardsInput, as far as it is set.
pub record ListShardsInput : Type 0 where
  pub stream_name : String
  pub next_token : Option String

-- `list` is the API call, `none` its error.
module _ (list : ListShardsInput → Option Page) (stream_name : String) where
  unfoldable pub enumerate_loop : ℕ → Option String → List Shard → Run (Option (List Shard))
  enumerate_loop zero token shards = out_of_fuel
  enumerate_loop (suc k) token shards =
      elim (list (record { stream_name = stream_name; next_token = token })) [
        | none ↦ ok none
        | some page ↦
            let found = shards ++ page.shards in
            let next = enumerate_loop k page.next_token found in
            elim page.next_token [ none ↦ ok (some found) | some _ ↦ next ]
      ]

  unfoldable pub enumerate_all_shards : ℕ → Run (Option (List Shard))
  unfolding enumerate_loop
  enumerate_all_shards fuel = enumerate_loop fuel none []

  -- discoverOnce: nothing changes after an error.
  unfoldable pub discover_once : ℕ → ShardDiscoveryService → Run (Option ShardDiscoveryService)
  unfolding enumerate_all_shards
  discover_once fuel d = do
    found ← enumerate_all_shards fuel
    elim found [ none ↦ ok none | some shards ↦ discover shards d >>= λ d'. ok (some d') ]
