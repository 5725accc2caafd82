-- ===== src/Firewall/Controller/Sync.antt =====
-- When `Sync` (controllers/firewall/controller.go) sends the configuration to the kernel.
use kube_pet_node.Prelude.{
  List, [], ◌∷◌, ◌++◌, Option, none, some, ◌≡◌, refl, sym, ap, ◌∙◌, Bool, true, false, Bool-cases,
  inl, inr, append_assoc, if◌then◌else◌, ℕ,
}
use mathlib.Core.List.{Permᴰ}
use kube_pet_node.Prelude.Text.{Text, text_eq, text_eq_refl, text_eq_sound}
use kube_pet_node.Prelude.Order.{Separates}
use kube_pet_node.Firewall.Platform.{Platform}
use kube_pet_node.Firewall.Nft.{NftCall}
use kube_pet_node.Firewall.Writer.{NftWriter}
use kube_pet_node.Firewall.Cluster.{Service, Endpoints}
use kube_pet_node.Firewall.Config.Lookup.{service_key, endpoints_key, endpoint_map, sort_services}
use kube_pet_node.Firewall.Config.Chains.{Node}
use kube_pet_node.Firewall.Ruleset.{ruleset_of}
use kube_pet_node.Firewall.Ruleset.Order.{ruleset_of-perm}
use kube_pet_node.Firewall.Refinement.{writer_of, build_config-ruleset}
use kube_pet_node.Firewall.Controller.{
  fnv_byte, fnv_write, fnv_sum, HashingBuilder, hashing_write, config_hash, FirewallController,
  new_firewall_controller, FlushOutcome, flushed, failed, is_enobufs, after_flush, sync_with,
  sync_built, sync,
}

fnv_write-append : (h : ℕ) (s t : List ℕ) → fnv_write h (s ++ t) ≡ fnv_write (fnv_write h s) t
unfolding fnv_write
fnv_write-append h [] t = refl
fnv_write-append h (c ∷ s) t = fnv_write-append (fnv_byte h c) s t

-- Writing a text in two pieces leaves the same text and the same hash as writing it in one.
pub hashing_write-append :
    (s t : Text) (hb : HashingBuilder)
    → hashing_write t (hashing_write s hb) ≡ hashing_write (s ++ t) hb
unfolding hashing_write
hashing_write-append s t hb = simp (fnv_write-append, append_assoc)

-- Whether the hash of the configuration is kept after the flush: it is after a success, and after
-- the error that comes although the kernel took the configuration.
unfoldable pub keeps_hash : FlushOutcome → Bool
keeps_hash flushed = true
keeps_hash (failed e) = is_enobufs e

after_flush_kept :
    (outcome : FlushOutcome) (hash : List ℕ) (fc : FirewallController)
    → keeps_hash outcome ≡ true
    → after_flush outcome hash fc ≡ record fc { latest_config_hash = hash }
unfolding after_flush keeps_hash
after_flush_kept flushed hash fc k = refl
after_flush_kept (failed e) hash fc k = rw k

after_flush_lost :
    (outcome : FlushOutcome) (hash : List ℕ) (fc : FirewallController)
    → keeps_hash outcome ≡ false
    → after_flush outcome hash fc ≡ fc
unfolding after_flush keeps_hash
after_flush_lost flushed hash fc k = cc
after_flush_lost (failed e) hash fc k = rw k

module _ (nft : NftWriter) (outcome : FlushOutcome) (fc : FirewallController) where
  sync_with_hash :
      keeps_hash outcome ≡ true
      → (sync_with nft outcome fc).0 ≡ record fc { latest_config_hash = config_hash nft }
  unfolding sync_with
  sync_with_hash k = elim (Bool-cases (text_eq fc.latest_config_hash (config_hash nft))) [
    | inl same ↦ rw same (
        ap (λ h. record { node = fc.node; latest_config_hash = h })
          (text_eq_sound fc.latest_config_hash (config_hash nft) same))
    | inr new ↦ rw new (after_flush_kept outcome (config_hash nft) fc k)
  ]

  sync_with_lost : keeps_hash outcome ≡ false → (sync_with nft outcome fc).0 ≡ fc
  unfolding sync_with
  sync_with_lost k = elim (Bool-cases (text_eq fc.latest_config_hash (config_hash nft))) [
    | inl same ↦ rw same
    | inr new ↦ rw new (after_flush_lost outcome (config_hash nft) fc k)
  ]

  -- The calls that are sent do not depend on the outcome.
  sync_with_sent :
      (outcome' : FlushOutcome) → (sync_with nft outcome fc).1 ≡ (sync_with nft outcome' fc).1
  unfolding sync_with
  sync_with_sent outcome' = elim (Bool-cases (text_eq fc.latest_config_hash (config_hash nft))) [
    | inl same ↦ rw same
    | inr new ↦ rw new
  ]

sync_with_known :
    (nft : NftWriter) (outcome : FlushOutcome) (fc : FirewallController)
    → fc.latest_config_hash ≡ config_hash nft
    → sync_with nft outcome fc ≡ (fc, none)
unfolding sync_with
sync_with_known nft outcome fc e = rw e (rw (text_eq_refl (config_hash nft)))

sync_with_new :
    (nft : NftWriter) (outcome : FlushOutcome) (node : Node)
    → sync_with nft outcome (new_firewall_controller node) ≡ (
      record {
        node = node;
        latest_config_hash = if keeps_hash outcome then config_hash nft else [];
      },
      some nft.conn,
    )
unfolding sync_with new_firewall_controller config_hash fnv_sum text_eq
sync_with_new nft outcome node = elim (Bool-cases (keeps_hash outcome)) [
  | inl kept ↦ rw kept (
      ap (λ fc. (fc, some nft.conn))
        (after_flush_kept outcome (config_hash nft) (new_firewall_controller node) kept))
  | inr lost ↦ rw lost (
      ap (λ fc. (fc, some nft.conn))
        (after_flush_lost outcome (config_hash nft) (new_firewall_controller node) lost))
]

module _ (p : Platform) (order : List Text → List Text)
    (perm : (l : List Text) → Permᴰ (order l) l) where
  -- The configuration that a sync builds.
  abbrev pub built : Node → List Endpoints → List Service → NftWriter
  built node endpoints services =
      writer_of p (ruleset_of p node (endpoint_map endpoints) (sort_services services))

  sync-eq :
      (endpoints : List Endpoints) (services : List Service) (outcome : FlushOutcome)
      (fc : FirewallController)
      → sync p order (some endpoints) (some services) outcome fc
        ≡ some (sync_with (built fc.node endpoints services) outcome fc)
  unfolding sync
  sync-eq endpoints services outcome fc =
      ap (λ b. sync_built p b outcome fc)
        (build_config-ruleset p order fc.node endpoints services perm)

  -- The first sync of a new controller sends the whole configuration, whatever it is, and keeps its
  -- hash if the flush succeeds or ends with ENOBUFS.
  pub sync-first :
      (node : Node) (endpoints : List Endpoints) (services : List Service) (outcome : FlushOutcome)
      → sync p order (some endpoints) (some services) outcome (new_firewall_controller node)
        ≡ some (
          record {
            node = node;
            latest_config_hash =
                if keeps_hash outcome then config_hash (built node endpoints services) else [];
          },
          some (built node endpoints services).conn,
        )
  sync-first node endpoints services outcome =
      sync-eq endpoints services outcome (new_firewall_controller node)
      ∙ unfold new_firewall_controller in
        ap some (sync_with_new (built node endpoints services) outcome node)

  -- Where keys tell the services and the endpoints apart, after a sync whose flush lets it keep
  -- the hash a sync of the same objects, listed in any order, sends nothing and changes nothing.
  pub sync-settles :
      (endpoints endpoints' : List Endpoints) (services services' : List Service)
      (outcome outcome' : FlushOutcome) (fc : FirewallController)
      → Permᴰ endpoints endpoints'
      → Permᴰ services services'
      → Separates endpoints_key endpoints
      → Separates service_key services
      → keeps_hash outcome ≡ true
      → let next : FirewallController = record fc {
        latest_config_hash = config_hash (built fc.node endpoints services);
      } in
        (sent : Option (List NftCall)) × (sync p order (some endpoints) (some services) outcome fc
          ≡ some (next, sent))
        × (sync p order (some endpoints') (some services') outcome' next ≡ some (next, none))
  sync-settles endpoints endpoints' services services' outcome outcome' fc d e s t k =
      let nft : NftWriter = built fc.node endpoints services in
      let next : FirewallController = record fc { latest_config_hash = config_hash nft } in
      let sent : Option (List NftCall) = (sync_with nft outcome fc).1 in
      let same : built fc.node endpoints' services' ≡ nft =
        ap (writer_of p) (sym (ruleset_of-perm p fc.node d e s t)) in
      (
        sent,
        sync-eq endpoints services outcome fc
            ∙ ap (λ f. some (f, sent)) (sync_with_hash nft outcome fc k),
        sync-eq endpoints' services' outcome' next
            ∙ ap some (
                sync_with_known (built fc.node endpoints' services') outcome' next
                  (ap config_hash (sym same))),
      )

  -- A sync whose flush fails, other than by ENOBUFS, leaves the controller as it was, so that the
  -- next sync of the same objects sends what this one sent.
  pub sync-retries :
      (endpoints : List Endpoints) (services : List Service) (outcome outcome' : FlushOutcome)
      (fc : FirewallController)
      → keeps_hash outcome ≡ false
      → let sent : Option (List NftCall) =
          (sync_with (built fc.node endpoints services) outcome fc).1 in
        (sync p order (some endpoints) (some services) outcome fc ≡ some (fc, sent))
        × ((next : FirewallController) × (sync p order (some endpoints) (some services) outcome' fc
              ≡ some (next, sent)))
  sync-retries endpoints services outcome outcome' fc k =
      let nft : NftWriter = built fc.node endpoints services in
      (
        sync-eq endpoints services outcome fc
            ∙ ap (λ f. some (f, (sync_with nft outcome fc).1)) (sync_with_lost nft outcome fc k),
        (
          (sync_with nft outcome' fc).0,
          sync-eq endpoints services outcome' fc
              ∙ ap (λ s. some ((sync_with nft outcome' fc).0, s))
                  (sync_with_sent nft outcome' fc outcome),
        ),
      )
