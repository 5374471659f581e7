-- ===== src/Worker/Life.antt =====
-- The loop of a worker: what it runs after any number of rounds.
use libvegas.Base.{
  ℕ, ◌≡◌, ◌≢◌, refl, ◌∙◌, ap, Bool, List, [], ◌∷◌, String, map, if◌then◌else◌, inl, inr, Bool-cases,
  string_eq,
}
use mathlib.Core.Path.{fun_ext}
use libvegas.Base.Run.{Returns, returned, Returns-then, Returns-weaken, Returns-both}
use libvegas.Base.Map.{has}
use libvegas.Messages.{Assignment}
use libvegas.Worker.{
  ShardProcessor, Reply, not_requested, failed, client_error, answered, WorkerService, is_listed,
  start,
}
use libvegas.Worker.Running.{IsWorker, runs, assign_once_lem}
use libvegas.Worker.Bounds.{IsBounded, assign_once-HasGrown}

-- The shards of an answer from a manager in service, if it has any; else those there were.
abbrev pub assigned : List Assignment → (String → Bool) → String → Bool
assigned [] before = before
assigned (a ∷ rest) before = λ k. is_listed k (a ∷ rest)

abbrev pub followed : Reply → (String → Bool) → String → Bool
followed not_requested before = before
followed failed before = before
followed client_error before = before
followed (answered response) before =
    if response.status.not_in_service then before else assigned response.assignments before

-- The shards that are to be processed after the replies.
abbrev pub expected : List (ℕ × Reply) → (String → Bool) → String → Bool
expected [] before = before
expected ((now, reply) ∷ rest) before = expected rest (followed reply before)

abbrev pub AreAnswers : List (ℕ × Reply) → Type 0
AreAnswers [] = Unit {0}
AreAnswers ((now, reply) ∷ rest) =
    (reply ≢ not_requested) × (reply ≢ client_error) × AreAnswers rest

assigned_runs :
    (xs : List Assignment) (before : String → Bool) (k : String)
    → (elim xs as (λ _. Bool) [ [] ↦ before k | a ∷ rest ↦ is_listed k (a ∷ rest) ])
      ≡ assigned xs before k
assigned_runs [] before k = refl
assigned_runs (a ∷ rest) before k = refl

runs-followed :
    (reply : Reply) (w : WorkerService) (k : String)
    → runs reply w k ≡ followed reply (λ j. has j w.shard_processors) k
runs-followed not_requested w k = refl
runs-followed failed w k = refl
runs-followed client_error w k = refl
runs-followed (answered response) w k = elim (Bool-cases response.status.not_in_service) [
  | inl away ↦ rw away refl
  | inr serving ↦ rw serving (assigned_runs response.assignments (λ j. has j w.shard_processors) k)
]

expected_same :
    (replies : List (ℕ × Reply)) (f g : String → Bool)
    → ((k : String) → f k ≡ g k)
    → (k : String) → expected replies f k ≡ expected replies g k
expected_same replies f g same k = ap (λ h. expected replies h k) (fun_ext same)

-- What the loop leaves: a worker in order that runs what the replies say, and all of it is stopped.
pub record Ended (replies : List (ℕ × Reply)) (before : String → Bool)
    (r : WorkerService × List ShardProcessor) : Type 0 where
  pub valid : IsWorker r.0
  pub bounded : IsBounded r.0
  pub running : (k : String) → has k r.0.shard_processors ≡ expected replies before k
  pub stopped : r.1 ≡ map (λ (_, p). p) r.0.shard_processors

-- For a worker whose current manager is one of its urls, whose processors stand under their shards
-- and that asks for a positive int64 of shards, when each request can be made and no reply is a
-- status of 4xx, the loop of Start leaves such a worker; it runs processors for the shards of the
-- last answer with assignments from a manager in service, or for those it ran for if there was
-- none, and the processors that are stopped at the end are those.
pub start-Ended :
    (replies : List (ℕ × Reply)) (w : WorkerService)
    → AreAnswers replies
    → IsWorker w
    → IsBounded w
    → Returns (Ended replies (λ k. has k w.shard_processors)) (start replies w)
unfolding start
start-Ended [] w answers v b =
    returned (record { valid = v; bounded = b; running = λ k. refl; stopped = refl })
start-Ended ((now, reply) ∷ rest) w (made, answer, answers) v b =
    Returns-then
      (Returns-both (assign_once_lem now reply w v made answer)
        (assign_once-HasGrown now reply w v b made answer))
      λ w' ((v', same), (b', _)). Returns-weaken (start-Ended rest w' answers v' b') λ r e. record {
        valid = e.valid;
        bounded = e.bounded;
        running = λ k.
            e.running k
            ∙ expected_same rest (λ j. has j w'.shard_processors)
                (followed reply (λ j. has j w.shard_processors))
                (λ j. same j ∙ runs-followed reply w j) k;
        stopped = e.stopped;
      }
