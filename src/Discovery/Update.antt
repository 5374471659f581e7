-- ===== src/Discovery/Update.antt =====
-- discoverOnce: what a list of shards makes of the lineage, and the queries on it.
use libvegas.Base.{
  ℕ, ◌≡◌, ◌≢◌, refl, ◌∙◌, sym, ap, List, [], ◌∷◌, Option, none, some, String, if◌then◌else◌, nat_eq,
  string_eq, inl, inr, Option-cases,
}
use mathlib.Core.List.{Mem, Perm, mem-cons_self, mem-cons_of_mem}
use mathlib.Core.List.Perm
use libvegas.Base.Run.{Run, ok, ◌>>=◌, for_each, Returns, returned, Returns-then, Returns-weaken}
use libvegas.Base.Map.{Map, lookup, insert, lookup-insert_self}
use libvegas.Messages.{Shard}
use libvegas.Discovery.{
  new_shard_discovery_service, ShardDiscoveryService, Entry, add_entry, set_entry,
  find_or_add_entry, link_parent, discover_shard, discover, collect, listed, is_known, root_of,
  get_all, get_roots,
}
use libvegas.Discovery.Kept.{
  IsEntry, IsListed, IsKept, IsKnown, Grown, Grown-refl, Grown-trans, lookup-AreListed,
  member-AreListed, set_entry-Grown, add_entry-Grown, added_entry, known-Grown,
}

-- The entry is there with its shard, and the shard is known.
abbrev Added : String → ShardDiscoveryService → ℕ × ShardDiscoveryService → Type 0
Added id d (a, d') = Grown d d' × IsListed d'.entries a × (lookup id d'.shards ≡ some a)

find_or_add_entry-Added :
    (ks : Shard) (d : ShardDiscoveryService)
    → IsKept d
    → Added ks.shard_id d (find_or_add_entry ks d)
unfolding find_or_add_entry
find_or_add_entry-Added ks d h = elim (Option-cases (lookup ks.shard_id d.shards)) [
  | inl missing ↦
      let (a, d') = add_entry (some ks) d in
      let g = add_entry-Grown (some ks) d h in
      let there : IsListed d'.entries a = (_, added_entry (some ks) d, λ e. cc e) in
      rw (missing, find_or_add_entry)
        (
          Grown-trans d d' _ g (known-Grown d' ks.shard_id a g.valid there),
          there,
          lookup-insert_self ks.shard_id a d'.shards,
        )
  | inr (a, found) ↦
      rw (found, find_or_add_entry)
        (Grown-refl d h, lookup-AreListed d.entries ks.shard_id a d.shards h.kept found, found)
]

-- The parent's entry, found or new.
linked-Grown :
    (parent : String) (d : ShardDiscoveryService)
    → IsKept d
    → (found : Option ℕ) → lookup parent d.shards ≡ found
    → let r : ℕ × ShardDiscoveryService = elim found [
      | some p ↦ (p, d)
      | none ↦ add_entry none d
    ] in
      Grown d r.1 × IsEntry r.1.entries r.0
linked-Grown parent d h none e = (add_entry-Grown none d h, (_, added_entry none d))
linked-Grown parent d h (some p) e =
    let (x, there, _) = lookup-AreListed d.entries parent p d.shards h.kept e in
    (Grown-refl d h, (x, there))

-- An entry that is replaced by one with the same shard.
same_shard :
    (d : ShardDiscoveryService) (a : ℕ) (s x : Entry)
    → IsKept d
    → lookup a d.entries ≡ some s
    → x.shard ≡ s.shard
    → Grown d (set_entry d a x)
same_shard d a s x h e same =
    set_entry-Grown d a x h (s, e)
      λ (y, there, shown).
        let one : s ≡ y = cc (sym e ∙ there) in
        λ gone. shown (sym (ap (λ z. z.shard) one) ∙ (sym same ∙ gone))

link_parent-Grown :
    (a : ℕ) (id : String) (parent : Option String) (d : ShardDiscoveryService)
    → IsKept d
    → IsEntry d.entries a
    → Returns (Grown d) (link_parent a id parent d)
unfolding link_parent
link_parent-Grown a id none d h there = returned (Grown-refl d h)
link_parent-Grown a id (some parent) d h there =
    let r : ℕ × ShardDiscoveryService = elim (lookup parent d.shards) [
      | some p ↦ (p, d)
      | none ↦ add_entry none d
    ] in
    let (g, at_parent) = linked-Grown parent d h (lookup parent d.shards) refl in
    let (s, e) = g.entries a there in
    let s' : Entry = record s { parents = insert parent r.0 s.parents } in
    let g' = same_shard r.1 a s s' g.valid e refl in
    let (x, e') = g'.entries r.0 at_parent in
    let x' : Entry = record x { children = insert id a x.children } in
    rw e (
      rw e' (
        returned
          (Grown-trans d _ _ (Grown-trans d _ _ g g') (same_shard _ r.0 x x' g'.valid e' refl))))

abbrev pub AreKnown : List Shard → ShardDiscoveryService → Type 0
AreKnown [] d = Unit {0}
AreKnown (ks ∷ rest) d = IsKnown d ks.shard_id × AreKnown rest d

discover_shard-Grown :
    (ks : Shard) (d : ShardDiscoveryService)
    → IsKept d
    → Returns (λ d'. Grown d d' × IsKnown d' ks.shard_id) (discover_shard ks d)
unfolding discover_shard
discover_shard-Grown ks d h =
    let (a, d1) = find_or_add_entry ks d in
    let (g, (s, e, _), here) = find_or_add_entry-Added ks d h in
    let s' : Entry = record s { shard = some ks } in
    let g' = set_entry-Grown d1 a s' g.valid (s, e) (λ _ k. cc k) in
    let known = g'.shards ks.shard_id (a, here) in
    rw e (
      Returns-then
        (link_parent-Grown a ks.shard_id ks.parent_shard_id _ g'.valid (g'.entries a (s, e)))
        λ d3 g3.
          Returns-weaken
            (link_parent-Grown a ks.shard_id ks.adjacent_parent_shard_id d3 g3.valid
              (g3.entries a (g'.entries a (s, e))))
            λ d4 g4. (
              Grown-trans d d1 d4 g (Grown-trans d1 _ d4 g' (Grown-trans _ d3 d4 g3 g4)),
              g4.shards ks.shard_id (g3.shards ks.shard_id known),
            ))

-- On a lineage where every shard has the entry of a listed shard and new entries have addresses of
-- their own, discoverOnce returns such a lineage for any list of shards, in any order; every
-- listed shard is known in it, and the shards and entries that were there are.
pub discover_lem :
    (shards : List Shard) (d : ShardDiscoveryService)
    → IsKept d
    → Returns (λ d'. Grown d d' × AreKnown shards d') (discover shards d)
unfolding discover for_each
discover_lem [] d h = returned (Grown-refl d h, tt)
discover_lem (ks ∷ rest) d h = Returns-then (discover_shard-Grown ks d h) λ d1 (g, known).
    Returns-weaken (discover_lem rest d1 g.valid)
      λ d2 (g', others). (Grown-trans d d1 d2 g g', (g'.shards ks.shard_id known, others))

collect-Returns :
    (d : ShardDiscoveryService) (f : Entry → Run (List Shard)) (es : List (String × ℕ))
    → ((k : String) (a : ℕ) → Mem (k, a) es → IsListed d.entries a)
    → ((x : Entry) → x.shard ≢ none → Returns (λ l. Unit {0}) (f x))
    → Returns (λ l. Unit {0}) (collect d f es)
unfolding collect
collect-Returns d f [] there each = returned tt
collect-Returns d f ((k, a) ∷ rest) there each =
    let (x, e, shown) = there k a mem-cons_self in
    rw e (
      Returns-then (each x shown) λ _ _.
        Returns-then (collect-Returns d f rest (λ j b m. there j b (mem-cons_of_mem (k, a) m)) each)
          λ _ _. returned tt)

is_known-Returns :
    (d : ShardDiscoveryService) (id : String) → IsKept d → Returns (λ b. Unit {0}) (is_known d id)
unfolding is_known
is_known-Returns d id h = elim (Option-cases (lookup id d.shards)) [
  | inl missing ↦ rw (missing, is_known) (returned tt)
  | inr (a, found) ↦
      let (x, e, _) = lookup-AreListed d.entries id a d.shards h.kept found in
      rw (found, is_known) (rw e (returned tt))
]

parent-Returns :
    (d : ShardDiscoveryService) (s : Shard)
    → IsKept d
    → (parent : Option String)
    → Returns
        (λ l. Unit {0})
        (elim parent [
          | none ↦ ok (s ∷ [])
          | some p ↦ is_known d p >>= λ known. ok (if known then [] else s ∷ [])
        ])
parent-Returns d s h none = returned tt
parent-Returns d s h (some p) = Returns-then (is_known-Returns d p h) λ _ _. returned tt

root_of-Returns :
    (d : ShardDiscoveryService) (x : Entry)
    → IsKept d
    → x.shard ≢ none
    → Returns (λ l. Unit {0}) (root_of d x)
unfolding root_of
root_of-Returns d x h shown = elim (Option-cases x.shard) [
  | inl missing ↦ absurd (shown missing)
  | inr (s, e) ↦ rw (e, root_of) (parent-Returns d s h s.parent_shard_id)
]

-- After a discovery on a lineage where every shard has the entry of a listed shard and new entries
-- have addresses of their own, and for any order in which a map is visited, GetAll and GetRoots
-- return; neither reads a nil shard.
pub queries-Returns :
    (order : Map String ℕ → Map String ℕ)
    → ((m : Map String ℕ) → Perm (order m) m)
    → (shards : List Shard) (d : ShardDiscoveryService) → IsKept d
    → Returns
        (λ d'.
          Returns (λ l. Unit {0}) (get_all order d') × Returns (λ l. Unit {0}) (get_roots order d'))
        (discover shards d)
unfolding get_all get_roots
queries-Returns order visits shards d h = Returns-weaken (discover_lem shards d h) λ d' (g, _).
    let there : (k : String) (a : ℕ) → Mem (k, a) (order d'.shards) → IsListed d'.entries a =
      λ k a m.
        member-AreListed d'.entries d'.shards g.valid.kept k a
          ((Perm.mem_iff (visits d'.shards)).0 m) in
    (
      collect-Returns d' (λ x. ok (listed x.shard)) (order d'.shards) there (λ x _. returned tt),
      collect-Returns d' (root_of d') (order d'.shards) there (λ x. root_of-Returns d' x g.valid),
    )

pub new-IsKept : IsKept new_shard_discovery_service
unfolding new_shard_discovery_service lookup
new-IsKept = record { kept = tt; fresh = λ a _. refl }
