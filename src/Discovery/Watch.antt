-- ===== src/Discovery/Watch.antt =====
-- Start of consumer/shard_discovery_service.go: discoveries on a timer, and the channel that tells
-- that the first one is done.
use libvegas.Base.{
  ℕ, ◌≡◌, refl, sym, ◌∙◌, subst, Bool, true, false, List, [], ◌∷◌, Option, none, some, String,
  if◌then◌else◌,
}
use libvegas.Base.Run.{Run, ok, panic, ◌>>=◌, Returns, returned, Returns-then, Returns-split}
use libvegas.Discovery.{ShardDiscoveryService, discover}
use libvegas.Messages.{Shard}
use libvegas.Discovery.Kept.{IsKept}
use libvegas.Discovery.Update.{discover_lem}
use libvegas.Discovery.Enumerate.{Page, ListShardsInput, enumerate_all_shards, discover_once}

-- The service, and whether its channel `initialised` is closed.
pub record Watch : Type 0 where
  pub service : ShardDiscoveryService
  pub initialised : Bool

-- Closing a channel twice panics.
unfoldable pub close_initialised : Watch → Run Watch
close_initialised w = if w.initialised then panic else ok (record w { initialised = true })

-- What a discovery found, with the flag `initialized` of the loop.
unfoldable pub after_discovery : Option ShardDiscoveryService → Bool → Watch → Run (Bool × Watch)
unfolding close_initialised
after_discovery none initialized w = ok (initialized, w)
after_discovery (some service) true w = ok (true, record w { service = service })
after_discovery (some service) false w =
    close_initialised (record w { service = service }) >>= λ w'. ok (true, w')

-- The loop for a stream, with the answers of the API to each discovery before the context is done.
unfoldable pub watch_loop :
    String → ℕ → List (ListShardsInput → Option Page) → Bool → Watch → Run (Bool × Watch)
unfolding after_discovery
watch_loop stream fuel [] initialized w = ok (initialized, w)
watch_loop stream fuel (list ∷ rest) initialized w = do
  found ← discover_once list stream fuel w.service
  (initialized', w') ← after_discovery found initialized w
  watch_loop stream fuel rest initialized' w'

unfoldable pub start :
    String → ℕ → List (ListShardsInput → Option Page) → ShardDiscoveryService → Run Watch
unfolding watch_loop close_initialised
start stream fuel lists service = do
  (initialized, w) ←
      watch_loop stream fuel lists false (record { service = service; initialised = false })
  if initialized then ok w else close_initialised w

-- Between two discoveries: the flag tells if the channel is closed, and the lineage is in order.
record Watching (r : Bool × Watch) : Type 0 where
  flag : r.0 ≡ r.1.initialised
  kept : IsKept r.1.service

after_discovery-Watching :
    (o : Option ShardDiscoveryService) (w : Watch) (b : Bool)
    → w.initialised ≡ b
    → IsKept w.service
    → ((d : ShardDiscoveryService) → o ≡ some d → IsKept d)
    → Returns Watching (after_discovery o b w)
unfolding after_discovery close_initialised
after_discovery-Watching none w b e h k = returned (record { flag = sym e; kept = h })
after_discovery-Watching (some service) w true e h k =
    returned (record { flag = sym e; kept = k service refl })
after_discovery-Watching (some service) w false e h k =
    rw e (returned (record { flag = refl; kept = k service refl }))

-- What a discovery gives, if it gives anything, is in order.
found-IsKept :
    (d : ShardDiscoveryService)
    → IsKept d
    → (shards : Option (List Shard))
    → Returns
        (λ o. (d' : ShardDiscoveryService) → o ≡ some d' → IsKept d')
        (elim shards [ none ↦ ok none | some listed ↦ discover listed d >>= λ d'. ok (some d') ])
found-IsKept d h none = returned λ d' e. absurd (cc e)
found-IsKept d h (some listed) =
    Returns-then (discover_lem listed d h)
      λ d' (g, _). returned λ f e. let same : d' ≡ f = cc e in subst IsKept same g.valid

discover_once-IsKept :
    (stream : String) (list : ListShardsInput → Option Page) (fuel : ℕ) (d : ShardDiscoveryService)
    → IsKept d
    → Returns (λ o. Unit {0}) (enumerate_all_shards list stream fuel)
    → Returns
        (λ o. (d' : ShardDiscoveryService) → o ≡ some d' → IsKept d')
        (discover_once list stream fuel d)
unfolding discover_once
discover_once-IsKept stream list fuel d h ends =
    Returns-then ends λ shards _. found-IsKept d h shards

-- Every listing comes to its last page or to an error.
abbrev pub AreFinite : String → ℕ → List (ListShardsInput → Option Page) → Type 0
AreFinite stream fuel [] = Unit {0}
AreFinite stream fuel (list ∷ rest) =
    Returns (λ o. Unit {0}) (enumerate_all_shards list stream fuel) × AreFinite stream fuel rest

watch_loop-Watching :
    (stream : String) (fuel : ℕ) (lists : List (ListShardsInput → Option Page)) (b : Bool)
    (w : Watch)
    → AreFinite stream fuel lists
    → Watching (b, w)
    → Returns Watching (watch_loop stream fuel lists b w)
unfolding watch_loop
watch_loop-Watching stream fuel [] b w ends h = returned h
watch_loop-Watching stream fuel (list ∷ rest) b w (end, ends) h =
    Returns-then (discover_once-IsKept stream list fuel w.service h.kept end) λ found k.
      Returns-then (after_discovery-Watching found w b (sym h.flag) h.kept k)
        λ (b', w') h'. watch_loop-Watching stream fuel rest b' w' ends h'

-- When every listing comes to its last page or to an error, the loop of Start ends with the
-- channel `initialised` closed, so that no query waits for ever, has not closed it twice, which
-- panics, and leaves the lineage in order if it was.
pub start-IsKept :
    (stream : String) (fuel : ℕ) (lists : List (ListShardsInput → Option Page))
    (service : ShardDiscoveryService)
    → AreFinite stream fuel lists
    → IsKept service
    → Returns (λ w. (w.initialised ≡ true) × IsKept w.service) (start stream fuel lists service)
unfolding start close_initialised
start-IsKept stream fuel lists service ends h =
    let first : Watching (false, record { service = service; initialised = false }) = record {
      flag = refl;
      kept = h;
    } in
    Returns-then (watch_loop-Watching stream fuel lists false _ ends first) λ (b, w) k.
      Returns-split b (λ on. returned (sym k.flag ∙ on, k.kept))
        λ off. rw (sym k.flag ∙ off) (returned (refl, k.kept))
