-- ===== src/Discovery/Paging.antt =====
-- enumerateAllShards on the API as its documentation has it: a request with a token must not name
-- the stream.
use libvegas.Base.{
  ℕ, suc, ◌≡◌, refl, ◌∙◌, ap, List, [], Option, none, some, String, inl, inr, Option-cases,
}
use libvegas.Base.Run.{ok}
use libvegas.Messages.{Shard}
use libvegas.Discovery.Enumerate.{Page, ListShardsInput, enumerate_loop, enumerate_all_shards}

-- What the first page alone tells: all shards if there is no other, and else an error.
abbrev pub first_only : Option Page → Option (List Shard)
first_only none = none
first_only (some page) = elim page.next_token [ none ↦ some page.shards | some _ ↦ none ]

module _ (list : ListShardsInput → Option Page) (stream_name : String)
    (refuses : (token : String)
      → list (record { stream_name = stream_name; next_token = some token }) ≡ none) where
  second_call :
      (k : ℕ) (token : String) (seen : List Shard)
      → enumerate_loop list stream_name (suc k) (some token) seen ≡ ok none
  unfolding enumerate_loop
  second_call k token seen = rw (refuses token, enumerate_loop) refl

  first_call :
      (k : ℕ) (answer : Option Page)
      → list (record { stream_name = stream_name; next_token = none }) ≡ answer
      → enumerate_loop list stream_name (suc (suc k)) none [] ≡ ok (first_only answer)
  unfolding enumerate_loop
  first_call k none e = rw (e, enumerate_loop) refl
  first_call k (some page) e = elim (Option-cases page.next_token) [
    | inl stop ↦ rw (e, enumerate_loop) (rw stop refl)
    | inr (token, go) ↦
        rw (e, enumerate_loop)
          (rw go (
            ap (λ t. enumerate_loop list stream_name (suc k) t page.shards) go
            ∙ second_call k token page.shards))
  ]

  -- On an API that refuses a token in a request that names the stream, as ListShards is documented
  -- to do, enumerateAllShards ends after two calls at most: with the shards of the first page if
  -- there is no other, and else, or if the first call fails, with an error.
  pub enumerate_all_shards_lem :
      (k : ℕ)
      → enumerate_all_shards list stream_name (suc (suc k))
        ≡ ok (first_only (list (record { stream_name = stream_name; next_token = none })))
  unfolding enumerate_all_shards
  enumerate_all_shards_lem k = first_call k _ refl
