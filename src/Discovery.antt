-- ===== src/Discovery.antt =====
-- consumer/shard_discovery_service.go. Each call runs under `mut`, after the first discovery.
-- Entries are shared by pointers, so they are the cells of `entries`; an entry for a parent that
-- is not known yet is linked, but is not put under its id.
pub mod Enumerate
pub mod Paging
pub mod Kept
pub mod Update
pub mod Watch
use libvegas.Base.{
  ℕ, zero, suc, Bool, true, false, List, [], ◌∷◌, ◌++◌, Option, none, some, String, if◌then◌else◌,
  nat_eq, string_eq,
}
use libvegas.Base.Run.{Run, ok, panic, ◌>>=◌, or_panic, for_each}
use libvegas.Base.Map.{Map, lookup, insert}
use libvegas.Messages.{Shard}

-- The struct `shard`.
pub record Entry : Type 0 where
  pub shard : Option Shard
  pub parents : Map String ℕ
  pub children : Map String ℕ

pub record ShardDiscoveryService : Type 0 where
  pub shards : Map String ℕ
  pub entries : Map ℕ Entry
  pub next_entry : ℕ

unfoldable pub new_shard_discovery_service : ShardDiscoveryService
new_shard_discovery_service = record { shards = []; entries = []; next_entry = 0 }

abbrev pub entry : ShardDiscoveryService → ℕ → Run Entry
entry d a = or_panic (lookup a d.entries)

unfoldable pub set_entry : ShardDiscoveryService → ℕ → Entry → ShardDiscoveryService
set_entry d a x = record d { entries = insert a x d.entries }

unfoldable pub add_entry : Option Shard → ShardDiscoveryService → ℕ × ShardDiscoveryService
unfolding set_entry
add_entry s d =
    let a = d.next_entry in
    (
      a,
      record (set_entry d a (record { shard = s; parents = []; children = [] })) {
        next_entry = suc a;
      },
    )

-- The entry of a shard that was listed, put under its id.
unfoldable pub find_or_add_entry : Shard → ShardDiscoveryService → ℕ × ShardDiscoveryService
unfolding add_entry
find_or_add_entry ks d = elim (lookup ks.shard_id d.shards) [
  | some a ↦ (a, d)
  | none ↦
      let (a, d') = add_entry (some ks) d in
      (a, record d' { shards = insert ks.shard_id a d'.shards })
]

-- `s.Parents[parent] = p; p.Children[id] = s`
unfoldable pub link_parent :
    ℕ → String → Option String → ShardDiscoveryService → Run ShardDiscoveryService
unfolding add_entry set_entry
link_parent a id none d = ok d
link_parent a id (some parent) d = do
  let found : ℕ × ShardDiscoveryService = elim (lookup parent d.shards) [
    | some p ↦ (p, d)
    | none ↦ add_entry none d
  ]
  let (p, d) = found
  s ← entry d a
  let d = set_entry d a (record s { parents = insert parent p s.parents })
  x ← entry d p
  ok (set_entry d p (record x { children = insert id a x.children }))

unfoldable pub discover_shard : Shard → ShardDiscoveryService → Run ShardDiscoveryService
unfolding find_or_add_entry link_parent
discover_shard ks d = do
  let (a, d) = find_or_add_entry ks d
  s ← entry d a
  d ← link_parent a ks.shard_id ks.parent_shard_id (set_entry d a (record s { shard = some ks }))
  link_parent a ks.shard_id ks.adjacent_parent_shard_id d

-- The part of discoverOnce under the lock, for what ListShards gave.
unfoldable pub discover : List Shard → ShardDiscoveryService → Run ShardDiscoveryService
unfolding discover_shard for_each
discover shards d = for_each discover_shard shards d

-- The shards of a range over entries, in its order.
unfoldable pub collect :
    ShardDiscoveryService → (Entry → Run (List Shard)) → List (String × ℕ) → Run (List Shard)
collect d f [] = ok []
collect d f ((_, a) ∷ rest) = do
  x ← entry d a
  found ← f x
  others ← collect d f rest
  ok (found ++ others)

abbrev pub listed : Option Shard → List Shard
listed none = []
listed (some s) = s ∷ []

-- Does the service know a shard under this id?
unfoldable pub is_known : ShardDiscoveryService → String → Run Bool
is_known d id = elim (lookup id d.shards) [
  | none ↦ ok false
  | some a ↦ entry d a >>= λ x. ok (elim x.shard [ none ↦ false | some _ ↦ true ])
]

-- A root has no parent, or one that is not known; reading the parent of a nil shard panics.
unfoldable pub root_of : ShardDiscoveryService → Entry → Run (List Shard)
unfolding is_known
root_of d x = do
  s ← or_panic x.shard
  elim s.parent_shard_id [
    | none ↦ ok (s ∷ [])
    | some parent ↦ is_known d parent >>= λ known. ok (if known then [] else s ∷ [])
  ]

-- A nil shard among the children would be handed on; the callers' reads of it panic.
unfoldable pub child_of : Entry → Run (List Shard)
child_of x = or_panic x.shard >>= λ s. ok (s ∷ [])

module _ (order : Map String ℕ → Map String ℕ) where
  unfoldable pub get_all : ShardDiscoveryService → Run (List Shard)
  unfolding collect
  get_all d = collect d (λ x. ok (listed x.shard)) (order d.shards)

  unfoldable pub get_roots : ShardDiscoveryService → Run (List Shard)
  unfolding collect root_of
  get_roots d = collect d (root_of d) (order d.shards)

  -- The children of an unknown shard are a nil dereference.
  unfoldable pub get_children : String → ShardDiscoveryService → Run (List Shard)
  unfolding collect child_of
  get_children id d = do
    a ← or_panic (lookup id d.shards)
    x ← entry d a
    collect d child_of (order x.children)
