-- ===== src/Controller/Converge/Mounted.antt =====
-- The ConfigMaps that the pods of a Gateway mount, after a request for it (`Reconcile` of controller.go,
-- against pkg/gateway/deployment.go).
use layer7_operator.Prelude.{
  String, Bool, true, false, ◌<>◌, ◌≡◌, none, ok, value, ◌⊎◌, inl, inr, List, [], ◌∷◌, All,
  All-append, All-imp, elem, refl, Bool-cases, ◌==◌, eq_iff, if◌then◌else◌,
}
use mathlib.Core.Path.{subst}
use mathlib.Core.Bool.{false≢true}
use layer7_operator.Kube.Pods.{KeyToPath, Volume, VolumeSource, secret, config_map, empty_dir, csi}
use layer7_operator.Api.Gateway.{Gateway}
use layer7_operator.Runtime.{Runtime}
use layer7_operator.Build.Config.Entries.{Provides}
use layer7_operator.Build.Deployment.{new_deployment}
use layer7_operator.Build.Deployment.Pod.{volumes-IsBacked}
use layer7_operator.Build.Deployment.Storage.Backed.{IsBacked, config_map_names, bundle_config_maps}
use layer7_operator.Controller.Client.{Client}
use layer7_operator.Controller.Run.{Run, is_not_found}
use layer7_operator.Controller.Reconcile.{Reply, reconcile}
use layer7_operator.Controller.Repeat.{KeepsKeys}
use layer7_operator.Controller.Converge.Places.{IsCluster}
use layer7_operator.Controller.Converge.Objects.{IsLicensed}
use layer7_operator.Controller.Converge.Stored.{StoresGateways}
use layer7_operator.Controller.Converge.Desired.{IsDesired}
use layer7_operator.Controller.Converge.Resumed.{reconcile-IsDesired}

All-elem : (P : String → Type 0) (n : String) (l : List String) → All P l → elem n l ≡ true → P n
All-elem P n [] h e = absurd (false≢true e)
All-elem P n (x ∷ xs) (h, hs) e = elim (Bool-cases (x == n)) [
  | inl same ↦ subst P ((eq_iff x n).0 same) h
  | inr other ↦ All-elem P n xs hs (rw other at e)
]

module _ (R : Runtime) (C : Client) (gw : Gateway) (s : C.State) where
  -- A read of the ConfigMap does not answer "not found".
  abbrev pub IsReadable : String → Type 0
  IsReadable name = is_not_found (C.config_maps.get gw.meta.namespace name s) ≡ none

  -- A ConfigMap volume takes one that is there, and each key that it projects is one of those that are
  -- built, or one that the spec lists as a bundle.
  abbrev pub IsMounted : VolumeSource → Type 0
  IsMounted (config_map c) =
      (IsReadable c.name × All (λ (k : KeyToPath). Provides R gw c.name k.key) c.entries)
      ⊎ (elem c.name (bundle_config_maps gw.spec.app.bundle) ≡ true)
  IsMounted (secret x) = Unit
  IsMounted empty_dir = Unit
  IsMounted (csi c) = Unit

  asked :
      (b : Bool) (name : String)
      → (b ≡ true → IsReadable name)
      → All IsReadable (if b then name ∷ [] else [])
  asked true name h = (h refl, tt)
  asked false name h = tt

  module _ (wanted : IsDesired R C gw s) where
    names-IsReadable : All IsReadable (config_map_names gw)
    names-IsReadable = (
      wanted.gateway_map.0,
      (
        wanted.system_map.0,
        All-append IsReadable
            (if gw.spec.app.cluster_properties.enabled
              then (gw.meta.name <> "-cwp-bundle") ∷ []
              else [])
            (if gw.spec.app.listen_ports.harden
              then (gw.meta.name <> "-listen-port-bundle") ∷ []
              else [])
            (asked gw.spec.app.cluster_properties.enabled _ wanted.properties_there)
            (asked gw.spec.app.listen_ports.harden _ wanted.ports_there),
      ),
    )

    source-IsMounted : (v : VolumeSource) → IsBacked R gw v → IsMounted v
    source-IsMounted (config_map c) (inl (named, keys)) =
        inl (All-elem IsReadable c.name (config_map_names gw) names-IsReadable named, keys)
    source-IsMounted (config_map c) (inr bundle) = inr bundle
    source-IsMounted (secret x) h = tt
    source-IsMounted empty_dir h = tt
    source-IsMounted (csi c) h = tt

-- If a request for a Gateway reports no error, where its license Secret is not the one that the operator
-- writes, setting an owner keeps the name and the namespace and no other client writes: for every
-- ConfigMap volume of the Deployment that is built, a read of its ConfigMap does not answer "not found",
-- and each key that the volume projects has a value in what is built of that ConfigMap, whatever random bytes are drawn; or the
-- spec lists the ConfigMap as a bundle.
pub reconcile-mounts :
    {R : Runtime} {C : Client}
    → KeepsKeys C
    → IsCluster C
    → StoresGateways C
    → (ns name : String) (gw : Gateway) (run run' : Run R C) (reply : Reply)
    → C.get_gateway ns name run.cluster ≡ value gw
    → IsLicensed gw
    → reply.error ≡ none
    → reconcile ns name run ≡ (ok reply, run')
    → All
        (λ (v : Volume). IsMounted R C run'.gateway run'.cluster v.source)
        (new_deployment run'.gateway).template.spec.volumes
reconcile-mounts {R} {C} keys cluster server ns name gw run run' reply found licensed no_error h =
    let (_, _, wanted, _) =
      reconcile-IsDesired keys cluster server ns name gw run run' reply found licensed no_error h in
    All-imp (λ v. source-IsMounted R C run'.gateway run'.cluster wanted v.source)
      (new_deployment run'.gateway).template.spec.volumes (volumes-IsBacked R run'.gateway)
