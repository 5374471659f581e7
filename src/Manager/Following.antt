-- ===== src/Manager/Following.antt =====
-- What a manager holds stays within the lineage: closed shards.
use libvegas.Base.{
  ℕ, zero, suc, refl, Bool, true, false, not, ◌&&◌, List, [], ◌∷◌, ◌++◌, none, String, nat_eq,
  string_eq, ◌==◌, if◌then◌else◌, inl, inr, Bool-cases, Option-cases,
}
use libvegas.Base.Run.{ok, for_each, ◌>>=◌}
use libvegas.Base.Partial.{Only, only, by_fuel, or_panic-Only, any-Only, Only-then, Returns-Only}
use libvegas.Base.Map.{lookup, has}
use libvegas.Messages.{Shard}
use libvegas.Queue
use libvegas.Manager.{ManagerService, CloseNotification, ShardDiscovery, set_info, checkpoint_of}
use libvegas.Manager.Notes.{AreKnown, append-AreKnown}
use libvegas.Manager.Children.{AreChildren}
use libvegas.Manager.Lineage.{IsLineage}
use libvegas.Manager.Numbers.{remove-AreOf}
use libvegas.Manager.Held.{IsKnown, IsOurs, set_info-IsOurs, remove-AreHeld, append-ArePooled}
use libvegas.Manager.Holding.{same-IsOurs}
use libvegas.Manager.Closed.{
  drop_closed, parents_closed, open_child, process_child, process_notification, closed_loop,
  process_closed_shards,
}

module _ (known : String → Bool) where
  drop_closed-IsOurs :
      (n : CloseNotification) (m : ManagerService)
      → IsOurs known m
      → Only (IsOurs known) (drop_closed n m)
  unfolding drop_closed
  drop_closed-IsOurs n m o = elim (Option-cases n.worker) [
    | inl nobody ↦ rw (nobody, drop_closed) (only o)
    | inr (w, e) ↦
        rw (e, drop_closed)
          (Only-then (or_panic-Only (lookup w m.infos)) λ i cell.
            let (held, offered) = o.cells w i cell in
            Only-then (any-Only (Queue.push m.worker_shard_count w _)) λ q _. only (
              same-IsOurs known (set_info m w _) _ refl refl refl refl (
                set_info-IsOurs known m w _ o
                  (remove-AreHeld known n.shard_id i.assignments held, offered)
                  (remove-AreOf m.infos w i cell n.shard_id))))
  ]

  open_child-IsOurs :
      (child : Shard) (m : ManagerService)
      → IsKnown known child.shard_id
      → IsOurs known m
      → IsOurs known (open_child child m)
  unfolding open_child
  open_child-IsOurs child m k o =
      elim (Bool-cases (
        not (checkpoint_of m child.shard_id == "CLOSED")
        && not (has child.shard_id m.live_shards))) [
          | inl fresh ↦
              rw (fresh, open_child)
                (record {
                  cells = o.cells;
                  pool = append-ArePooled known m.unassigned_shards child o.pool k;
                  closed = o.closed;
                  numbers = o.numbers;
                })
          | inr old ↦
              rw (old, open_child)
                (record {
                  cells = o.cells;
                  pool = o.pool;
                  closed = append-AreKnown (IsKnown known) m.closed _ o.closed k;
                  numbers = o.numbers;
                })
        ]

  ready-IsOurs :
      (child : Shard) (m : ManagerService)
      → IsKnown known child.shard_id
      → IsOurs known m
      → (ready : Bool) → IsOurs known (if ready then open_child child m else m)
  ready-IsOurs child m k o true = open_child-IsOurs child m k o
  ready-IsOurs child m k o false = o

  -- The children of a notified shard.
  children-IsOurs :
      (weight : String → ℕ) (children : List Shard) (m : ManagerService)
      → AreChildren (IsKnown known) weight children
      → IsOurs known m
      → Only (IsOurs known) (for_each process_child children m)
  unfolding for_each process_child
  children-IsOurs weight [] m h o = only o
  children-IsOurs weight (child ∷ rest) m ((k, parent), h) o =
      Only-then
        (Only-then (any-Only (parents_closed m child))
          λ ready _. only (ready-IsOurs child m k o ready))
        λ n o'. children-IsOurs weight rest n h o'

  module _ (discovery : ShardDiscovery) (weight : String → ℕ)
      (lineage : IsLineage discovery (IsKnown known) weight) where
    abbrev Processed : ManagerService × List CloseNotification → Type 0
    Processed (m, unresolved) = IsOurs known m × AreKnown (IsKnown known) unresolved

    after_children :
        (n : CloseNotification) (m : ManagerService) (unresolved : List CloseNotification)
        → IsKnown known n.shard_id
        → IsOurs known m
        → AreKnown (IsKnown known) unresolved
        → (children : List Shard) → AreChildren (IsKnown known) weight children
        → Only Processed (elim children [
          | [] ↦ ok (m, unresolved ++ record n { worker = none } ∷ [])
          | child ∷ rest ↦ for_each process_child (child ∷ rest) m >>= λ m'. ok (m', unresolved)
        ])
    after_children n m unresolved k o h [] are =
        only (o, append-AreKnown (IsKnown known) unresolved (record n { worker = none }) h k)
    after_children n m unresolved k o h (child ∷ rest) are =
        Only-then (children-IsOurs weight (child ∷ rest) m are o) λ m' o'. only (o', h)

    process_notification-IsOurs :
        (n : CloseNotification) (m : ManagerService) (unresolved : List CloseNotification)
        → IsKnown known n.shard_id
        → IsOurs known m
        → AreKnown (IsKnown known) unresolved
        → Only Processed (process_notification discovery n m unresolved)
    unfolding process_notification
    process_notification-IsOurs n m unresolved k o h = Only-then (drop_closed-IsOurs n m o) λ m' o'.
        Only-then (Returns-Only (lineage n.shard_id k))
          λ children (are, _). after_children n m' unresolved k o' h children are

    -- One round of the loop, given what the later ones do.
    round-IsOurs :
        (k : ℕ) (m : ManagerService) (unresolved closed : List CloseNotification)
        → ((n : ManagerService) (left : List CloseNotification)
            → IsOurs known n
            → AreKnown (IsKnown known) left
            → Only (IsOurs known) (closed_loop discovery k n left))
        → IsOurs known m
        → AreKnown (IsKnown known) unresolved
        → AreKnown (IsKnown known) closed
        → Only (IsOurs known) (elim closed [
          | [] ↦ ok (record m { closed = unresolved })
          | n ∷ rest ↦
              process_notification discovery n (record m { closed = rest }) unresolved
              >>= λ (m', unresolved'). closed_loop discovery k m' unresolved'
        ])
    round-IsOurs k m unresolved [] later o h t =
        only (record { cells = o.cells; pool = o.pool; closed = h; numbers = o.numbers })
    round-IsOurs k m unresolved (n ∷ rest) later o h (f, t) =
        Only-then
          (process_notification-IsOurs n (record m { closed = rest }) unresolved f
            (record { cells = o.cells; pool = o.pool; closed = t; numbers = o.numbers }) h)
          λ (m', left) (o', h'). later m' left o' h'

    closed_loop-IsOurs :
        (fuel : ℕ) (m : ManagerService) (unresolved : List CloseNotification)
        → IsOurs known m
        → AreKnown (IsKnown known) unresolved
        → Only (IsOurs known) (closed_loop discovery fuel m unresolved)
    unfolding closed_loop
    closed_loop-IsOurs zero m unresolved o h = by_fuel
    closed_loop-IsOurs (suc k) m unresolved o h =
        round-IsOurs k m unresolved m.closed (closed_loop-IsOurs k) o h o.closed

    pub process_closed_shards-IsOurs :
        (fuel : ℕ) (m : ManagerService)
        → IsOurs known m
        → Only (IsOurs known) (process_closed_shards discovery fuel m)
    unfolding process_closed_shards
    process_closed_shards-IsOurs fuel m o = closed_loop-IsOurs fuel m [] o tt
