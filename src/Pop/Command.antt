-- ===== src/Pop/Command.antt =====
-- pop/main.go: the flags of the command, their defaults and what is refused. The flag package is a
-- library: what it parses is an argument.
use libvegas.Base.{
  ℕ, sym, subst, ◌≡◌, ◌≢◌, refl, List, [], ◌∷◌, String, string_eq, ◌==◌, if◌then◌else◌, inl, inr,
  Bool-cases, Bool, true, false, not, ◌&&◌,
}
use libvegas.Base.Run.{Run, ok, panic, fatal, ◌>>=◌}
use libvegas.Base.Map.{beq_eq, beq_ne}
use mathlib.Core.Logic.Or
use mathlib.Core.List.{Mem, mem-cons, mem-cons_self, mem-cons_of_mem, not-mem-nil}
use libvegas.Config.{PopConfig, Urls}
use libvegas.Pop.{Answers, PopService, without_clients, idle, new_pop_service, start}
use libvegas.Config.Options.{
  with_id, with_manager_pop_urls, with_pop_listen_address, with_etcd_peer_urls,
  with_etcd_listen_peer_address, with_etcd_client_urls, with_etcd_listen_client_address,
  apply_options, new_pop_config,
}

pub record Flags : Type 0 where
  pub name : String
  pub stream_name : String
  pub id : ℕ
  pub pop_urls : String
  pub pop_listen_address : String
  pub etcd_peer_urls : String
  pub etcd_peer_listen_address : String
  pub etcd_client_urls : String
  pub etcd_client_listen_address : String

-- `init`: the flags that are not given
abbrev pub default_flags : Flags
default_flags = record {
  name = "pop";
  stream_name = "";
  id = 1;
  pop_urls = "http://localhost:13001";
  pop_listen_address = "localhost";
  etcd_peer_urls = "http://localhost:12001";
  etcd_peer_listen_address = "localhost";
  etcd_client_urls = "http://localhost:11001";
  etcd_client_listen_address = "localhost";
}

-- `os.Exit(1)` under a message
abbrev pub required : String → Run Flags → Run Flags
required given next = if given == "" then fatal else next

unfoldable pub parse_args : Flags → Run Flags
parse_args f = required f.name (
    required f.stream_name
      (required f.pop_urls (required f.etcd_peer_urls (required f.etcd_client_urls (ok f)))))

unfoldable pub options : Flags → List (PopConfig → PopConfig)
options f =
    with_id f.id
    ∷ with_manager_pop_urls f.pop_urls
    ∷ with_pop_listen_address f.pop_listen_address
    ∷ with_etcd_peer_urls f.etcd_peer_urls
    ∷ with_etcd_listen_peer_address f.etcd_peer_listen_address
    ∷ with_etcd_client_urls f.etcd_client_urls
    ∷ with_etcd_listen_client_address f.etcd_client_listen_address
    ∷ []

-- The node that main makes and starts, with what its Start comes to. The options give it neither a
-- logger nor a Kinesis client.
unfoldable pub main : {U : Type 0} → Urls U → Answers → Flags → Run (Bool × PopService)
unfolding parse_args options new_pop_service
main net answers f = do
  f ← parse_args f
  p ← new_pop_service (without_clients answers) f.name f.stream_name (options f)
  start net (without_clients answers) p

-- The flags that must not be empty.
abbrev needed : Flags → List String
needed f = f.name ∷ f.stream_name ∷ f.pop_urls ∷ f.etcd_peer_urls ∷ f.etcd_client_urls ∷ []

-- The defaults of NewPopService under the flags.
abbrev flagged : Flags → PopConfig
flagged f = record (new_pop_config f.name f.stream_name []) {
  pop_id = f.id;
  pop_urls = f.pop_urls;
  pop_listen_address = f.pop_listen_address;
  etcd_peer_urls = f.etcd_peer_urls;
  etcd_listen_peer_address = f.etcd_peer_listen_address;
  etcd_client_urls = f.etcd_client_urls;
  etcd_listen_client_address = f.etcd_client_listen_address;
}

pub data Started {U : Type 0} (net : Urls U) (answers : Answers) (f : Flags)
    : Run (Bool × PopService) → Type 0 where
  refused : Mem "" (needed f) → Started net answers f fatal
  silent : ¬ Mem "" (needed f) → answers.production_logger ≡ false → Started net answers f panic
  started :
      ¬ Mem "" (needed f)
      → answers.production_logger ≡ true
      → Started net answers f (start net (without_clients answers) (idle (flagged f)))

required_either :
    (P : Run Flags → Type 0) (given : String) (next : Run Flags)
    → (given ≡ "" → P fatal)
    → (given ≢ "" → P next)
    → P (required given next)
required_either P given next l r = elim (Bool-cases (given == "")) [
  | inl same ↦ rw same (l (beq_eq given "" same))
  | inr differ ↦ rw differ (r (beq_ne given "" differ))
]

not_first : (x : String) (xs : List String) → x ≢ "" → ¬ Mem "" xs → ¬ Mem "" (x ∷ xs)
not_first x xs h k m = Or.elim (hlevel) (mem-cons.0 m) (λ e. h (sym e)) k

first : (x : String) (xs : List String) → x ≡ "" → Mem "" (x ∷ xs)
first x xs e = subst (λ y. Mem y (x ∷ xs)) e mem-cons_self

logged :
    {U : Type 0} (net : Urls U) (answers : Answers) (f : Flags)
    → ¬ Mem "" (needed f)
    → (b : Bool) → answers.production_logger ≡ b
    → Started net answers f (
        (if not false && not b then panic else ok (idle (flagged f)))
        >>= start net (without_clients answers))
logged net answers f given true e = started given e
logged net answers f given false e = silent given e

-- Main exits when one of the five required flags is empty, panics when they are given but there is
-- no logger, and else starts, as Start of the pop service does, a node whose configuration is that
-- of NewPopService under its name and its stream, with the id, the urls and the listen addresses
-- of the flags, and without clients of its own.
pub main-Started :
    {U : Type 0} (net : Urls U) (answers : Answers) (f : Flags)
    → Started net answers f (main net answers f)
unfolding main parse_args options new_pop_config apply_options new_pop_service
main-Started net answers f =
    let P : Run Flags → Type 0 = λ r. Started net answers f (
      r >>= λ g.
      new_pop_service (without_clients answers) g.name g.stream_name (options g)
      >>= start net (without_clients answers)) in
    let later = λ (x : String) (xs : List String) (m : Mem "" xs). mem-cons_of_mem x m in
    required_either P f.name _ (λ e. refused (first f.name _ e))
      λ n.
        required_either P f.stream_name _ (λ e. refused (later _ _ (first f.stream_name _ e)))
          λ s.
            required_either P f.pop_urls _
              (λ e. refused (later _ _ (later _ _ (first f.pop_urls _ e))))
              λ u.
                required_either P f.etcd_peer_urls _
                  (λ e. refused (later _ _ (later _ _ (later _ _ (first f.etcd_peer_urls _ e)))))
                  λ p.
                    required_either P f.etcd_client_urls _
                      (λ e. refused (
                        later _ _
                          (later _ _ (later _ _ (later _ _ (first f.etcd_client_urls _ e))))))
                      λ c.
                        logged net answers f
                          (not_first f.name _ n (
                            not_first f.stream_name _ s (
                              not_first f.pop_urls _ u (
                                not_first f.etcd_peer_urls _ p
                                  (not_first f.etcd_client_urls _ c not-mem-nil)))))
                          answers.production_logger refl

-- The flags and NewPopService have the same defaults.
default_flags-same :
    (stream : String)
    → flagged (record default_flags { stream_name = stream }) ≡ new_pop_config "pop" stream []
unfolding new_pop_config apply_options
default_flags-same stream = refl
