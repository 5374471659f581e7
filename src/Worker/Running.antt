-- ===== src/Worker/Running.antt =====
-- The processors that a worker runs after an answer.
use libvegas.Base.{
  ℕ, Bool, true, false, List, [], ◌∷◌, String, ◌≡◌, ◌≢◌, ◌<◌, refl, length, get_or,
  get_elem?-get_or, ◌∙◌, if◌then◌else◌, string_eq, ◌==◌, arith, inl, inr, Bool-cases,
}
use libvegas.Base.Map.{Map, lookup, insert, remove, has, lookup-insert, lookup-remove}
use libvegas.Base.Run.{Returns, returned, Returns-split, Returns-weaken}
use libvegas.Messages.{Assignment}
use libvegas.Worker.{
  ShardProcessor, is_listed, to_start, to_restart, to_stop, install, uninstall, follow, Reply,
  not_requested, failed, client_error, answered, WorkerService, rotate_manager, accept_assignments,
  current_manager, assign_once,
}

-- Each processor stands under the id of its shard.
abbrev pub IsKeyed : Map String ShardProcessor → Type 0
IsKeyed [] = Unit {0}
IsKeyed ((k, p) ∷ rest) = (p.assignment.shard_id ≡ k) × IsKeyed rest

unfoldable for_shard : String → List ShardProcessor → Bool
for_shard k [] = false
for_shard k (p ∷ rest) = if p.assignment.shard_id == k then true else for_shard k rest

has-insert :
    (j k : String) (p : ShardProcessor) (m : Map String ShardProcessor)
    → has k (insert j p m) ≡ (if j == k then true else has k m)
has-insert j k p m = ground (arith, lookup-insert j k p m)

has-remove :
    (j k : String) (m : Map String ShardProcessor)
    → has k (remove j m) ≡ (if j == k then false else has k m)
has-remove j k m = ground (arith, lookup-remove j k m)

has-install :
    (k : String) (ps : List ShardProcessor) (m : Map String ShardProcessor)
    → has k (install ps m) ≡ (if for_shard k ps then true else has k m)
unfolding install for_shard
has-install k [] m = refl
has-install k (p ∷ rest) m =
    has-install k rest (insert p.assignment.shard_id p m)
    ∙ ground (arith, has-insert p.assignment.shard_id k p m)

has-uninstall :
    (k : String) (ps : List ShardProcessor) (m : Map String ShardProcessor)
    → has k (uninstall ps m) ≡ (if for_shard k ps then false else has k m)
unfolding uninstall for_shard
has-uninstall k [] m = refl
has-uninstall k (p ∷ rest) m =
    has-uninstall k rest (remove p.assignment.shard_id m)
    ∙ ground (arith, has-remove p.assignment.shard_id k m)

for_shard-to_start :
    (k url : String) (m : Map String ShardProcessor) (xs : List Assignment)
    → for_shard k (to_start url m xs) ≡ (if has k m then false else is_listed k xs)
unfolding to_start for_shard is_listed
for_shard-to_start k url m [] = ground arith
for_shard-to_start k url m (a ∷ rest) =
    ground (arith, for_shard-to_start k url m rest, string_eq.beq_iff a.shard_id k)

for_shard-to_restart :
    (k url : String) (m : Map String ShardProcessor) (xs : List Assignment)
    → is_listed k xs ≡ false
    → for_shard k (to_restart url m xs) ≡ false
unfolding to_restart for_shard is_listed
for_shard-to_restart k url m [] h = refl
for_shard-to_restart k url m (a ∷ rest) h = ground (arith, for_shard-to_restart k url m rest)

for_shard-to_stop :
    (k : String) (xs : List Assignment) (m : Map String ShardProcessor)
    → IsKeyed m
    → for_shard k (to_stop xs m) ≡ (if is_listed k xs then false else has k m)
unfolding to_stop for_shard lookup
for_shard-to_stop k xs [] h = ground arith
for_shard-to_stop k xs ((j, p) ∷ rest) (e, h) =
    ground (arith, for_shard-to_stop k xs rest h, string_eq.beq_iff j k, e)

insert-IsKeyed :
    (p : ShardProcessor) (m : Map String ShardProcessor)
    → IsKeyed m
    → IsKeyed (insert p.assignment.shard_id p m)
unfolding insert
insert-IsKeyed p [] h = (refl, tt)
insert-IsKeyed p ((j, q) ∷ rest) (e, h) = elim (Bool-cases (j == p.assignment.shard_id)) [
  | inl same ↦ rw same (refl, h)
  | inr differ ↦ rw differ (e, insert-IsKeyed p rest h)
]

remove-IsKeyed : (k : String) (m : Map String ShardProcessor) → IsKeyed m → IsKeyed (remove k m)
unfolding remove
remove-IsKeyed k [] h = h
remove-IsKeyed k ((j, q) ∷ rest) (e, h) = elim (Bool-cases (j == k)) [
  | inl same ↦ rw same (remove-IsKeyed k rest h)
  | inr differ ↦ rw differ (e, remove-IsKeyed k rest h)
]

install-IsKeyed :
    (ps : List ShardProcessor) (m : Map String ShardProcessor) → IsKeyed m → IsKeyed (install ps m)
unfolding install
install-IsKeyed [] m h = h
install-IsKeyed (p ∷ rest) m h = install-IsKeyed rest _ (insert-IsKeyed p m h)

uninstall-IsKeyed :
    (ps : List ShardProcessor) (m : Map String ShardProcessor)
    → IsKeyed m
    → IsKeyed (uninstall ps m)
unfolding uninstall
uninstall-IsKeyed [] m h = h
uninstall-IsKeyed (p ∷ rest) m h =
    uninstall-IsKeyed rest _ (remove-IsKeyed p.assignment.shard_id m h)

-- After an answer the shards of the assignments are those with a processor, and no others.
follow_lem :
    (url : String) (xs : List Assignment) (m : Map String ShardProcessor)
    → IsKeyed m
    → IsKeyed (follow url xs m) × ((k : String) → has k (follow url xs m) ≡ is_listed k xs)
unfolding follow
follow_lem url xs m h =
    let started = install (to_start url m xs) m in
    let restarted = install (to_restart url m xs) started in
    (
      uninstall-IsKeyed (to_stop xs m) restarted
          (install-IsKeyed (to_restart url m xs) started (install-IsKeyed (to_start url m xs) m h)),
      λ k.
          has-uninstall k (to_stop xs m) restarted
          ∙ ground (
            arith,
            for_shard-to_stop k xs m h,
            for_shard-to_restart k url m xs,
            for_shard-to_start k url m xs,
            has-install k (to_restart url m xs) started,
            has-install k (to_start url m xs) m,
          ),
    )

-- The current manager is one of the urls, and processors stand under their shards.
pub record IsWorker (w : WorkerService) : Type 0 where
  pub managed : w.manager_index < length w.manager_urls
  pub keyed : IsKeyed w.shard_processors

-- Does a processor run for the shard after the reply?
abbrev pub runs : Reply → WorkerService → String → Bool
runs not_requested w k = has k w.shard_processors
runs failed w k = has k w.shard_processors
runs client_error w k = has k w.shard_processors
runs (answered response) w k =
    if response.status.not_in_service then has k w.shard_processors else elim response.assignments [
      | [] ↦ has k w.shard_processors
      | a ∷ rest ↦ is_listed k (a ∷ rest)
    ]

-- What a round leaves of the worker.
abbrev pub Assigned : Reply → WorkerService → WorkerService → Type 0
Assigned reply w w' = IsWorker w' × ((k : String) → has k w'.shard_processors ≡ runs reply w k)

rotate_manager-IsWorker : (w : WorkerService) → IsWorker w → IsWorker (rotate_manager w)
unfolding rotate_manager
rotate_manager-IsWorker w v = record { managed = ground (arith, v.managed); keyed = v.keyed }

accept_assignments_lem :
    (now : ℕ) (xs : List Assignment) (w : WorkerService)
    → IsWorker w
    → Returns
        (λ w'.
          IsWorker w'
          × ((k : String)
              → has k w'.shard_processors
                ≡ elim xs [ [] ↦ has k w.shard_processors | a ∷ rest ↦ is_listed k (a ∷ rest) ]))
        (accept_assignments now xs w)
unfolding accept_assignments current_manager
accept_assignments_lem now [] w v = returned (v, λ k. refl)
accept_assignments_lem now (a ∷ rest) w v =
    let (keyed, same) =
      follow_lem (get_or w.manager_urls w.manager_index "") (a ∷ rest) w.shard_processors v.keyed in
    rw (get_elem?-get_or w.manager_urls w.manager_index "" v.managed)
      (returned (record { managed = v.managed; keyed = keyed }, same))

-- For a worker whose current manager is one of its urls and whose processors stand under their
-- shards, when a request can be made and the reply is no status of 4xx, a round returns such a
-- worker; after assignments of a manager in service, processors run for the assigned shards and no
-- others, and else for the shards they ran for.
pub assign_once_lem :
    (now : ℕ) (reply : Reply) (w : WorkerService)
    → IsWorker w
    → reply ≢ not_requested
    → reply ≢ client_error
    → Returns (Assigned reply w) (assign_once now reply w)
unfolding assign_once
assign_once_lem now not_requested w v made h = absurd (made refl)
assign_once_lem now failed w v made h = returned (rotate_manager-IsWorker w v, λ k. refl)
assign_once_lem now client_error w v made h = absurd (h refl)
assign_once_lem now (answered response) w v made h =
    Returns-split response.status.not_in_service
      (λ away. returned (rotate_manager-IsWorker w v, λ k. rw away refl))
      (λ serving.
        Returns-weaken (accept_assignments_lem now response.assignments w v)
          λ w' (valid, same). (valid, λ k. same k ∙ rw serving refl))
