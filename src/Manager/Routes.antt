-- ===== src/Manager/Routes.antt =====
-- The HTTP handlers of ManagerService, and middleware/state_critical_route.go around two of them. A
-- request is its body, if it can be read.
use Prim.Native.String.{◌++◌ as append}
use libvegas.Config.{PopConfig, Urls, get_manager_listen_url}
use libvegas.Base.{ℕ, List, [], ◌∷◌, Option, none, some, String}
use libvegas.Base.Run.{Run, ok, panic, fatal, out_of_fuel, ◌>>=◌}
use libvegas.Base.Text.{decimal}
use libvegas.Http.{HttpResponse, Codec}
use libvegas.Messages.{
  AssignRequest, AssignResponse, CheckpointRequest, CheckpointResponse, StateResponse,
}
use libvegas.Etcd.{Etcd, Condition}
use libvegas.Manager.{ManagerService, RangeOrder, ShardDiscovery}
use libvegas.Manager.Assign.{handle_assign_request}
use libvegas.Manager.Checkpoint.{handle_checkpoint_request}
use libvegas.Manager.Service.{handle_state_request}

-- `WriteHeader` without `Write`
abbrev pub bare : ℕ → HttpResponse
bare status = record { status = status; body = "" }

-- A result as it is written, or a 500 if it cannot be encoded.
abbrev pub encoded_response : Option String → HttpResponse
encoded_response none = bare 500
encoded_response (some text) = record { status = 200; body = text }

-- A panic in the handler exits the process.
unfoldable pub state_critical {ℓ} : {A : Type ℓ} → Run A → Run A
state_critical (ok a) = ok a
state_critical panic = fatal
state_critical fatal = fatal
state_critical out_of_fuel = out_of_fuel

module _ (order : RangeOrder) (discovery : ShardDiscovery) (requests : Codec AssignRequest)
    (responses : Codec AssignResponse) where
  unfoldable pub assign :
      ℕ → ℕ → ℕ → Option String → ManagerService → Run (HttpResponse × ManagerService)
  assign fuel now clock none m = ok (bare 500, m)
  assign fuel now clock (some body) m = elim (requests.unmarshal body) [
    | none ↦ ok (bare 400, m)
    | some request ↦
        handle_assign_request order discovery fuel now clock request m >>= λ (response, m').
        ok (encoded_response (responses.marshal response), m')
  ]

-- What the handler came to, as it is written.
abbrev pub checkpoint_response : Codec CheckpointResponse → Option CheckpointResponse → HttpResponse
checkpoint_response responses none = record { status = 500; body = "checkpoint failed" }
checkpoint_response responses (some response) = encoded_response (responses.marshal response)

module _ {K : Type 0} (etcd : Etcd K) where
  unfoldable pub checkpoint :
      Codec CheckpointRequest
      → Codec CheckpointResponse
      → (Condition → K → K)
      → (ManagerService → Run ManagerService)
      → Option String
      → K × ManagerService
      → Run (HttpResponse × K × ManagerService)
  checkpoint requests responses between others none (s, m) = ok (bare 500, s, m)
  checkpoint requests responses between others (some body) (s, m) = elim (requests.unmarshal body) [
    | none ↦ ok (bare 400, s, m)
    | some request ↦ handle_checkpoint_request etcd between others request (s, m) >>= λ (o, s', m').
        ok (checkpoint_response responses o, s', m')
  ]

  -- `error` is the text of the error that the client gives.
  unfoldable pub health : String → K → ManagerService → HttpResponse
  health error s m =
      let node = append m.cfg.name (append "-" (decimal m.cfg.pop_id)) in
      elim (etcd.get "/healthcheck" s) [
        | none ↦ record {
          status = 503;
          body = append "unhealthy-" (append node (append ": " error));
        }
        | some _ ↦ record { status = 200; body = append "healthy-" node }
      ]

unfoldable pub state : RangeOrder → Codec StateResponse → ℕ → ManagerService → Run HttpResponse
state order responses now m = handle_state_request order now m >>= λ response.
    ok (encoded_response (responses.marshal response))

-- The handlers that Start registers, each under WithContext, those of checkpoints and of assign
-- requests also under StateCriticalRoute.
pub data Handler : Type 0 where
  to_checkpoint to_assign to_status to_health to_state : Handler

abbrev pub routes : List (String × Handler)
routes =
    ("/checkpoint/", to_checkpoint)
    ∷ ("/assign/", to_assign)
    ∷ ("/status/", to_status)
    ∷ ("/health/", to_health)
    ∷ ("/state/", to_state)
    ∷ []

pub record HttpServer : Type 0 where
  pub addr : String
  pub handlers : List (String × Handler)

module _ {U : Type 0} (net : Urls U) where
  -- `server` of Start, at the host and the port of a url
  abbrev pub server_at : U → HttpServer
  server_at u = record {
    addr = append (net.hostname u) (append ":" (net.port u));
    handlers = routes;
  }

  -- The server that Start has running when it returns, or the error of the url.
  unfoldable pub start_server : PopConfig → Run (Option HttpServer)
  start_server cfg = do
    url ← get_manager_listen_url net cfg
    ok (elim url [ none ↦ none | some u ↦ some (server_at u) ])
