-- ===== src/Lib.antt =====
-- kube-pet-node runs the pods of a Kubernetes node with podman, on a machine that its owner keeps
-- like a pet. This library models these parts of it and proves what they promise.
--
-- - Firewall: controllers/firewall. `FirewallController.Sync` (Firewall/Controller) lets `BuildConfig`
--   (Firewall/Config and its children) write the nftables configuration through an `NftWriter`
--   (Firewall/Writer), rule by rule with one `RuleBuilder` (Firewall/Rule), hashes the text, and
--   flushes the batch when the hash is new. Firewall/Cluster has the Kubernetes objects, Firewall/Nft
--   and Firewall/Expr the calls and expressions of google/nftables, and Firewall/Platform what net and
--   unix give. Firewall/Ruleset says, without the writer, which chains and rules a cluster needs.
-- - Pods: controllers/pods. `PodmanProvider` (Pods/Provider) makes and deletes pods: it stores their
--   specs (Pods/Storage, storage.go), keeps them in the manager's map (Pods/Manager, manager.go), turns
--   them into podman's configuration (Pods/Convert, converter.go), and pulls images (Pods/ImagePull,
--   image-pull.go). Pods/Coord (coord.go) names pods, Pods/Startup is `NewPodManager`, Pods/Stats
--   is `GetAllStats`, and Pods/Kube has the members of corev1.Pod that are read.
-- - Volumes: controllers/volumes and pkg/fsinject. `CreatePodVolumes` (Volumes/Controller) makes the
--   volumes that the containers mount: it asks podman for them (Volumes/Runtime, podman.go), and has a
--   tar process (Volumes/Archive, inject-archive.go) unpack the files and links of secrets
--   (Volumes/Secret, vol-secret.go) and tokens (Volumes/Projected, vol-projected.go). Volumes/Links is
--   where the links lead.
-- - Upgrade: controllers/autoupgrade. The loop of `AutoUpgrade.Run` is a relation between its phases
--   (Upgrade/Controller); a release is read and its package chosen in Upgrade/Release (configmap.go,
--   exec-upgrade.go), and Upgrade/Packages and Upgrade/Units ask the system (exec-pkgmgr.go,
--   exec-systemctl.go).
-- - Podman: pkg/podman. Podman/Client is client.go, from a request to a value or an error; its children
--   have the requests of the other client files. Podman/Demux takes apart the packets of logs and
--   commands (client-exec.go).
-- - Identity: controllers/nodeidentity. Identity/Provider is provider.go with the node's status,
--   Identity/Address the external address that it follows, Identity/Node controller.go, and
--   Identity/System what is read from files.
-- - KubeApi: of controllers/kubeapi the key material (KubeApi/Keys, storage.go), the request for a
--   certificate (KubeApi/Request, certificate-request.go), and the flow that waits for its approval
--   (KubeApi/Certificate, certificate-flow.go).
-- - Wireguard: pkg/wireguard. `EnsureKeyMaterial` (Wireguard/Material, keypair.go) keeps the node's key
--   (Wireguard/Keys, keypair-noise.go) in the configuration (Wireguard/Config, config.go).
-- - Prelude: byte strings, Go maps, sorting, splitting, and int64 arithmetic.
--
-- A Go string is the list of its bytes. A function that may panic gives an Option or an Outcome; the
-- panics are nil pointers and maps, a slice's bounds, a division by zero, and those of the program. A
-- map is an association list, and the order in which Go ranges over it is an argument where it matters.
-- What podman, the kernel, the file system, other programs and the API server answer are arguments too,
-- so that the theorems hold for every answer. A handler with a state is a function of
-- Prelude/Run. A uint16 is taken modulo 65536 and the int64 arithmetic wraps around. A decimal number
-- has fuel for the twenty digits of a uint64. The loop over packets has fuel for each byte of the input
-- and one round more; a round takes at least eight bytes. Everything else recurs on lists.
--
-- Not modelled: locks, times, logs and events on pods; in controllers/firewall the waiting for
-- informers and the debouncing; in controllers/pods exec and logs; the libraries for INI files,
-- semantic versions, JSON, URLs, tar, base64 and curves, which are parameters; of podman's reports
-- the members that nothing reads; the server and the statistics of controllers/kubeapi; and
-- controllers/selfprovision, controllers/caching and the wiring of main.go and controller, whose
-- calls here are arguments.
pub mod Prelude
pub mod Firewall
pub mod Pods
pub mod Volumes
pub mod Upgrade
pub mod Podman
pub mod Identity
pub mod KubeApi
pub mod Wireguard
