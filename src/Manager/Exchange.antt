-- ===== src/Manager/Exchange.antt =====
-- A worker or a processor on one side of an HTTP exchange, and the manager's handlers on the other.
use libvegas.Base.{
  ℕ, ◌≡◌, refl, ◌<◌, Option, none, some, String, Option-cases, inl, inr, List, length,
}
use mathlib.Core.List.{Perm}
use libvegas.Base.Run.{Run, ok, Returns, returned, Returns-then}
use libvegas.Base.Map.{Map}
use libvegas.Http.{replied, HttpResponse, Codec, CodecLaws}
use libvegas.Messages.{Shard, AssignRequest, AssignResponse, CheckpointRequest, CheckpointResponse}
use libvegas.Etcd.{Etcd, EtcdLaws, Condition}
use libvegas.Worker.{Reply, answered, read_answer}
use libvegas.Processor.{read_reply}
use libvegas.Manager.{ManagerService, RangeOrder, ShardDiscovery}
use libvegas.Manager.Sync.{IsSynced}
use libvegas.Manager.Notes.{AreKnown, closed_weight}
use libvegas.Manager.Lineage.{IsLineage}
use libvegas.Base.Partial.{
  any-Only, Returns-Only_both, Unless, returns, endless_by, Unless-then, Unless-Only,
}
use libvegas.Manager.Assign.{handle_assign_request}
use libvegas.Manager.Checkpoint.{handle_checkpoint_request}
use libvegas.Manager.Session.{Served, HasSpent, handle_assign_request_lem}
use libvegas.Manager.Outcome.{Outcome, handle_checkpoint_request_lem}
use libvegas.Manager.Routes.{
  encoded_response, state_critical, assign, checkpoint, checkpoint_response,
}

module _ {ℓ κ} {A : Type ℓ} {P : A → Type κ} where
  state_critical-Unless {μ} :
      {R : Type μ} {m : Run A} → Unless R P m → Unless R P (state_critical m)
  unfolding state_critical
  state_critical-Unless (returns h) = returns h
  state_critical-Unless (endless_by r) = endless_by r

  state_critical-Returns : {m : Run A} → Returns P m → Returns P (state_critical m)
  unfolding state_critical
  state_critical-Returns (returned h) = returned h

-- What the worker makes of the manager's response.
abbrev pub heard : Codec AssignResponse → HttpResponse → Reply
heard responses h = read_answer responses.unmarshal (replied h.status (some h.body))

-- What the processor makes of it: `none` is an error, after which it tries again.
abbrev pub confirmed : Codec CheckpointResponse → HttpResponse → Run (Option CheckpointResponse)
confirmed responses h = read_reply responses.unmarshal (replied h.status (some h.body))

heard-encoded_response :
    (responses : Codec AssignResponse) (r : AssignResponse)
    → CodecLaws responses
    → heard responses (encoded_response (responses.marshal r)) ≡ answered r
unfolding read_answer
heard-encoded_response responses r laws = elim (Option-cases (responses.marshal r)) [
  | inl garbled ↦ absurd (laws.encoded r garbled)
  | inr (text, e) ↦ rw (e, laws.decoded r text e) refl
]

confirmed-response :
    (responses : Codec CheckpointResponse) (o : Option CheckpointResponse)
    → CodecLaws responses
    → confirmed responses (checkpoint_response responses o) ≡ ok o
unfolding read_reply
confirmed-response responses none laws = refl
confirmed-response responses (some r) laws = elim (Option-cases (responses.marshal r)) [
  | inl garbled ↦ absurd (laws.encoded r garbled)
  | inr (text, e) ↦ rw (e, laws.decoded r text e) refl
]

module _ (order : RangeOrder) (visits : (m : Map ℕ (List Shard)) → Perm (order.offers m) m)
    (discovery : ShardDiscovery) (IsKnown : String → Type 0) (weight : String → ℕ)
    (lineage : IsLineage discovery IsKnown weight) (requests : Codec AssignRequest)
    (responses : Codec AssignResponse) where
  -- Under the conditions of handle_assign_request_lem, and when the messages have encodings that
  -- decode to them, the route of assign requests does not exit on the encoding of a request; it
  -- runs out of fuel only as the handler does, and else the handler returned, the manager is the
  -- one it left, as in handle_assign_request_lem, and the worker reads from the response the very
  -- answer of the handler.
  pub assign_lem :
      CodecLaws requests
      → CodecLaws responses
      → (fuel clock now : ℕ) (request : AssignRequest) (body : String) (m : ManagerService)
      → requests.marshal request ≡ some body
      → IsSynced m
      → AreKnown IsKnown m.closed
      → length m.workers < fuel
      → closed_weight weight m.closed < fuel
      → Unless
          (HasSpent order visits discovery fuel clock now request m)
          (λ x.
            (r : AssignResponse) × (handle_assign_request order discovery fuel now clock request m
              ≡ ok (r, x.1))
            × Served order visits discovery IsKnown request m (r, x.1)
            × (heard responses x.0 ≡ answered r))
          (state_critical (assign order discovery requests responses fuel now clock (some body) m))
  unfolding assign
  assign_lem laws laws' fuel clock now request body m e v known enough light =
      state_critical-Unless (
        rw (laws.decoded request body e, assign)
          (Unless-then
            (Unless-Only
              (handle_assign_request_lem order visits discovery IsKnown weight lineage fuel clock
                now request m v known enough light)
              (any-Only (handle_assign_request order discovery fuel now clock request m)))
            (λ spent. spent)
            λ (r, n) (served, e). returns (r, e, served, heard-encoded_response responses r laws')))

module _ {K : Type 0} (etcd : Etcd K) (read : K → String → Option String)
    (laws : EtcdLaws etcd read) (requests : Codec CheckpointRequest)
    (responses : Codec CheckpointResponse) where
  -- On a manager in step, when the messages have encodings that decode to them, the store has the
  -- laws of transactions and what other handlers do to the manager meanwhile returns a manager in
  -- step, the route of checkpoint requests responds to the encoding of a request without an exit;
  -- the handler returned, with one of the outcomes of handle_checkpoint_request_lem, the store and
  -- the manager are those it left, and the processor reads from the response what it returned, an
  -- error as an error, after which the processor tries again.
  pub checkpoint_lem :
      CodecLaws requests
      → CodecLaws responses
      → (between : Condition → K → K) (others : ManagerService → Run ManagerService)
        (request : CheckpointRequest) (body : String) (s : K) (m : ManagerService)
      → requests.marshal request ≡ some body
      → IsSynced m
      → Returns IsSynced (others m)
      → Returns
          (λ (response, s', n).
            (o : Option CheckpointResponse) × (handle_checkpoint_request etcd between others request
                (s, m)
              ≡ ok (o, s', n))
            × Outcome etcd read laws between others request s m (o, s', n)
            × (confirmed responses response ≡ ok o))
          (state_critical (checkpoint etcd requests responses between others (some body) (s, m)))
  unfolding checkpoint
  checkpoint_lem coded coded' between others request body s m e v meanwhile =
      state_critical-Returns (
        rw (coded.decoded request body e, checkpoint)
          (Returns-then
            (Returns-Only_both
              (handle_checkpoint_request_lem etcd read laws between others request s m v meanwhile)
              (any-Only (handle_checkpoint_request etcd between others request (s, m))))
            λ (o, s', n) (outcome, e).
              returned (o, e, outcome, confirmed-response responses o coded')))
