-- ===== src/Config/Cluster.antt =====
-- The embedded server's configuration: a node is a member of the cluster it names.
use Prim.Native.String.{◌++◌ as append}
use libvegas.Base.{
  ℕ, zero, suc, ◌+◌, ◌≤◌, ◌<◌, ◌≡◌, refl, ◌∙◌, ap, List, [], ◌∷◌, Option, none, some, String,
  get_elem?, arith, length,
}
use libvegas.Base.Run.{Run, ok, Returns, returned, Returns-then}
use libvegas.Base.Text.{decimal, split, join}
use libvegas.Config.{
  PopConfig, Urls, url_at, cluster_entries, advertised, listened, get_etcd_peer_name,
  get_initial_cluster, get_listen_client_urls, get_advertise_client_urls, get_listen_peer_urls,
  get_advertise_peer_urls,
}
use libvegas.Config.Server.{EtcdConfig, or_error, etcd_config}

get_elem?-some :
    {A : Type 0} (xs : List A) (i : ℕ) → i < length xs → (x : A) × (get_elem? xs i ≡ some x)
get_elem?-some [] i h = absurd (omega arith)
get_elem?-some (x ∷ xs) zero h = (x, refl)
get_elem?-some (x ∷ xs) (suc i) h = get_elem?-some xs i (omega arith)

pub url_at-Returns :
    (id : ℕ) (urls : List String)
    → 0 < id
    → id ≤ length urls
    → Returns (λ url. (i : ℕ) × (id ≡ suc i) × (get_elem? urls i ≡ some url)) (url_at id urls)
unfolding url_at
url_at-Returns zero urls low high = absurd (omega arith)
url_at-Returns (suc i) urls low high =
    let (url, e) = get_elem?-some urls i (omega arith) in rw e (returned (i, refl, e))

-- The entry of a peer in the initial cluster.
abbrev pub entry : String → ℕ → String → String
entry name id url = append (append name (append "-" (decimal id))) (append "=" url)

get_elem?-cluster_entries :
    (name : String) (i : ℕ) (urls : List String) (k : ℕ) (url : String)
    → get_elem? urls k ≡ some url
    → get_elem? (cluster_entries name i urls) k ≡ some (entry name (i + k + 1) url)
unfolding cluster_entries
get_elem?-cluster_entries name i [] k url h = absurd (cc h)
get_elem?-cluster_entries name i (u ∷ rest) zero url h =
    let same : u ≡ url = cc h in
    let first : i + 1 ≡ i + 0 + 1 = omega arith in rw (first, same) refl
get_elem?-cluster_entries name i (u ∷ rest) (suc k) url h =
    let next : i + suc k + 1 ≡ i + 1 + k + 1 = omega arith in
    rw next (get_elem?-cluster_entries name (i + 1) rest k url h)

module _ {U : Type 0} (net : Urls U) where
  -- A result, or an error that the parser gives.
  abbrev pub Parsed : {A : Type 0} → (A → Type 0) → Option A → Type 0
  Parsed P none = (text : String) × (net.parse text ≡ none)
  Parsed P (some a) = P a

  -- The url of this node among `urls`.
  abbrev pub IsMine : PopConfig → String → List U → Type 0
  IsMine cfg urls us =
      (i : ℕ) × (url : String) × (u : U) × (cfg.pop_id ≡ suc i)
      × (get_elem? (split urls) i ≡ some url)
      × (net.parse url ≡ some u)
      × (us ≡ u ∷ [])

  found-Parsed :
      (cfg : PopConfig) (urls url : String) (i : ℕ)
      → cfg.pop_id ≡ suc i
      → get_elem? (split urls) i ≡ some url
      → (o : Option U) → net.parse url ≡ o
      → Parsed (IsMine cfg urls) (elim o [ none ↦ none | some u ↦ some (u ∷ []) ])
  found-Parsed cfg urls url i mine there none e = (url, e)
  found-Parsed cfg urls url i mine there (some u) e = (i, url, u, mine, there, e, refl)

  advertised-Parsed :
      (cfg : PopConfig) (urls : String)
      → 0 < cfg.pop_id
      → cfg.pop_id ≤ length (split urls)
      → Returns (Parsed (IsMine cfg urls)) (advertised net cfg urls)
  unfolding advertised
  advertised-Parsed cfg urls low high =
      Returns-then (url_at-Returns cfg.pop_id (split urls) low high) λ url (i, mine, there).
        returned (found-Parsed cfg urls url i mine there (net.parse url) refl)

  at_address-Parsed :
      (text : String) (o : Option U)
      → net.parse text ≡ o
      → Parsed (λ us. Unit {0}) (elim o [ none ↦ none | some v ↦ some (v ∷ []) ])
  at_address-Parsed text none e = (text, e)
  at_address-Parsed text (some v) e = tt

  moved-Parsed :
      (address url : String) (o : Option U)
      → net.parse url ≡ o
      → Parsed
          (λ us. Unit {0})
          (elim o [
            | none ↦ none
            | some u ↦
                elim (net.parse (
                  append
                    (net.scheme u)
                    (append "://" (append address (append ":" (net.port u)))))) [
                      | none ↦ none
                      | some v ↦ some (v ∷ [])
                    ]
          ])
  moved-Parsed address url none e = (url, e)
  moved-Parsed address url (some u) e = at_address-Parsed _ _ refl

  listened-Parsed :
      (cfg : PopConfig) (urls address : String)
      → 0 < cfg.pop_id
      → cfg.pop_id ≤ length (split urls)
      → Returns (Parsed (λ us. Unit {0})) (listened net cfg urls address)
  unfolding listened
  listened-Parsed cfg urls address low high =
      Returns-then (url_at-Returns cfg.pop_id (split urls) low high)
        λ url there. returned (moved-Parsed address url (net.parse url) refl)

  step-Parsed :
      {A B : Type 0} (P : A → Type 0) (Q : B → Type 0) (next : A → Run (Option B))
      → ((a : A) → P a → Returns (Parsed Q) (next a))
      → (r : Option A) → Parsed P r
      → Returns (Parsed Q) (elim r [ none ↦ ok none | some a ↦ next a ])
  step-Parsed P Q next k none e = returned e
  step-Parsed P Q next k (some a) p = k a p

  -- The next step is taken with what was parsed, and an error is passed on.
  or_error-Parsed :
      {A B : Type 0} (P : A → Type 0) (Q : B → Type 0) (m : Run (Option A))
      (next : A → Run (Option B))
      → Returns (Parsed P) m
      → ((a : A) → P a → Returns (Parsed Q) (next a))
      → Returns (Parsed Q) (or_error m next)
  or_error-Parsed P Q m next h k = Returns-then h (step-Parsed P Q next k)

  -- The node advertises the url that the cluster lists under its name.
  pub record Configured (cfg : PopConfig) (c : EtcdConfig U) : Type 0 where
    pub url : String
    pub u : U
    pub place : ℕ
    pub parsed : net.parse url ≡ some u
    pub advertises : c.advertise_peer_urls ≡ u ∷ []
    pub member :
        get_elem? (cluster_entries cfg.name 0 (split cfg.etcd_peer_urls)) place
        ≡ some (append c.name (append "=" url))
    pub cluster : c.initial_cluster ≡ join (cluster_entries cfg.name 0 (split cfg.etcd_peer_urls))

  -- For an id from 1 to the number of the peer urls and of the client urls, the configuration of
  -- the embedded server is made without a panic, or some url is not parsed; the one url it
  -- advertises to peers is parsed from a url that the initial cluster lists under the name of the
  -- node.
  pub etcd_config_lem :
      (cfg : PopConfig)
      → 0 < cfg.pop_id
      → cfg.pop_id ≤ length (split cfg.etcd_peer_urls)
      → cfg.pop_id ≤ length (split cfg.etcd_client_urls)
      → Returns (Parsed (Configured cfg)) (etcd_config net cfg)
  unfolding etcd_config get_listen_client_urls get_advertise_client_urls get_listen_peer_urls
      get_advertise_peer_urls get_etcd_peer_name get_initial_cluster
  etcd_config_lem cfg low peers clients =
      or_error-Parsed _ _ _ _
        (listened-Parsed cfg cfg.etcd_client_urls cfg.etcd_listen_client_address low clients)
        λ lc _.
          or_error-Parsed _ _ _ _ (advertised-Parsed cfg cfg.etcd_client_urls low clients) λ ac _.
            or_error-Parsed _ _ _ _
              (listened-Parsed cfg cfg.etcd_peer_urls cfg.etcd_listen_peer_address low peers)
              λ lp _.
                or_error-Parsed _ _ _ _ (advertised-Parsed cfg cfg.etcd_peer_urls low peers)
                  λ ap' (i, url, u, mine, there, parsed, same).
                    let numbered : 0 + i + 1 ≡ cfg.pop_id = omega (arith, mine) in
                    returned (record {
                      url = url;
                      u = u;
                      place = i;
                      parsed = parsed;
                      advertises = same;
                      member =
                          get_elem?-cluster_entries cfg.name 0 (split cfg.etcd_peer_urls) i url
                            there
                          ∙ ap (λ n. some (entry cfg.name n url)) numbered;
                      cluster = refl;
                    })
