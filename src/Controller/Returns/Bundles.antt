-- ===== src/Controller/Returns/Bundles.antt =====
-- The builders of the bundles return (pkg/gateway/util/bundle.go and pkg/gateway/config/config.go).
use mathlib.Core.Bool.{false≢true}
use layer7_operator.Prelude.{
  arith, Bool, true, false, ◌≡◌, Outcome, ok, err, panic, if◌then◌else◌, String, refl, ◌<>◌, ◌==◌,
  List, [], ◌∷◌, ◌++◌,
}
use layer7_operator.Prelude.Dict.{Dict, insert}
use layer7_operator.Prelude.Exec.{Exec, proceed, ignore_error, or_zero}
use layer7_operator.Kube.Meta.{CoreConfigMap}
use layer7_operator.Api.Gateway.{Gateway}
use layer7_operator.Runtime.{Runtime}
use layer7_operator.Bundle.Xml.{Item, Mapping}
use layer7_operator.Bundle.Token.{rand_token}
use layer7_operator.Bundle.Cwp.{
  cwp_loop, build_cwp_bundle, build_bundle, cluster_property_item, cluster_property_mapping,
}
use layer7_operator.Bundle.ListenPort.{draw_id, build_listen_port_bundle}
use layer7_operator.Build.Config.{
  cwp_entries, listen_port_entries, config_entries, new_config_map, collect_properties,
}
use layer7_operator.Controller.Returns.{
  Returns, IsSafe, returns, call-returns, ignore_error-Returns, if-Returns,
}

-- The outcome of a choice.
if-ok :
    {S A : Type 0} (b : Bool) (m m' : Exec S A) (s : S)
    → ((a : A) × ((m s).0 ≡ ok a))
    → ((a : A) × ((m' s).0 ≡ ok a))
    → (a : A) × (((if b then m else m') s).0 ≡ ok a)
if-ok true m m' s h h' = h
if-ok false m m' s h h' = h'

proceed-ok_of :
    {S A B : Type 0} (r : Outcome A) (s : S) (f : A → Exec S B)
    → ((a : A) × (r ≡ ok a))
    → ((a : A) (t : S) → (b : B) × ((f a t).0 ≡ ok b))
    → (b : B) × ((proceed r s f).0 ≡ ok b)
proceed-ok_of (ok a) s f h rest = rest a s
proceed-ok_of (err e) s f (a, h) rest = ground arith
proceed-ok_of panic s f (a, h) rest = ground arith

-- An error that is ignored leaves the zero value.
ignored-ok :
    {S A : Type 0} (zero_value : A) (m : Exec S A) (s : S)
    → returns (m s).0 ≡ true
    → (a : A) × ((ignore_error zero_value m s).0 ≡ ok a)
ignored-ok zero_value m s h = by_outcome (m s).0 h
  where
    by_outcome : (r : Outcome _) → returns r ≡ true → (a : _) × (or_zero zero_value r ≡ ok a)
    by_outcome (ok a) h = (a, refl)
    by_outcome (err e) h = (zero_value, refl)
    by_outcome panic h = absurd (false≢true h)

module _ {R : Runtime} (safe : IsSafe R) where
  rand_token-Returns : Returns (rand_token R 16)
  unfolding rand_token
  rand_token-Returns e = call-returns (R.rand_read 16) _ e (safe.rand_read 16) (λ bytes s. refl)

  cwp_loop-Returns :
      (cwps : Dict String) (items : List Item) (mapping : List Mapping)
      → Returns (cwp_loop R cwps items mapping)
  unfolding cwp_loop
  cwp_loop-Returns [] items mapping e = refl
  cwp_loop-Returns ((cwp, val) ∷ cwps) items mapping e =
      call-returns (rand_token R 16) _ e rand_token-Returns λ id.
        cwp_loop-Returns cwps (items ++ cluster_property_item cwp val id ∷ [])
          (mapping ++ cluster_property_mapping cwp id ∷ [])

  build_cwp_bundle-Returns : (cwps : Dict String) → Returns (build_cwp_bundle R cwps)
  unfolding build_cwp_bundle
  build_cwp_bundle-Returns cwps e = call-returns (R.range cwps) _ e (safe.range cwps) λ order s.
      call-returns (cwp_loop R order [] []) _ s (cwp_loop-Returns order [] [])
        λ made t. safe.marshal (build_bundle made.0 made.1)

  draw_id-Returns : Returns (draw_id R)
  unfolding draw_id
  draw_id-Returns = ignore_error-Returns "" (rand_token R 16) rand_token-Returns

  build_listen_port_bundle-Returns :
      (suites versions : List String) → Returns (build_listen_port_bundle R suites versions)
  unfolding build_listen_port_bundle
  build_listen_port_bundle-Returns suites versions e =
      call-returns (draw_id R) _ e draw_id-Returns λ a s.
        call-returns (draw_id R) _ s draw_id-Returns λ b t.
          call-returns (draw_id R) _ t draw_id-Returns
            λ c u. call-returns (draw_id R) _ u draw_id-Returns λ d v. safe.marshal _

  cwp_entries-Returns : (gw : Gateway) → Returns (cwp_entries R gw)
  unfolding cwp_entries
  cwp_entries-Returns gw e =
      let props = collect_properties gw.spec.app.cluster_properties.properties [] in
      call-returns (ignore_error "" (build_cwp_bundle R props)) _ e
        (ignore_error-Returns "" (build_cwp_bundle R props) (build_cwp_bundle-Returns props))
        (λ bundle s. refl)

  listen_port_entries-Returns : (gw : Gateway) → Returns (listen_port_entries R gw)
  unfolding listen_port_entries
  listen_port_entries-Returns gw e =
      let ports = gw.spec.app.listen_ports in
      let build = build_listen_port_bundle R ports.cipher_suites ports.tls_versions in
      call-returns (ignore_error "" build) _ e
        (ignore_error-Returns "" build
          (build_listen_port_bundle-Returns ports.cipher_suites ports.tls_versions))
        (λ bundle s. refl)

  config_entries-Returns : (gw : Gateway) (name : String) → Returns (config_entries R gw name)
  unfolding config_entries
  config_entries-Returns gw name =
      if-Returns (name == gw.meta.name <> "-system") _ _ (λ e. refl)
        (if-Returns (name == gw.meta.name) _ _ (λ e. refl)
          (if-Returns (name == gw.meta.name <> "-cwp-bundle") _ _ (cwp_entries-Returns gw) (
            if-Returns (name == gw.meta.name <> "-listen-port-bundle") _ _
              (listen_port_entries-Returns gw) (λ e. refl))))

  pub new_config_map-Returns : (gw : Gateway) (name : String) → Returns (new_config_map R gw name)
  unfolding new_config_map
  new_config_map-Returns gw name e =
      call-returns (config_entries R gw name) _ e (config_entries-Returns gw name) (λ d s. refl)

  cwp_entries-ok :
      (gw : Gateway) (e : R.Entropy) → (d : Dict String) × ((cwp_entries R gw e).0 ≡ ok d)
  unfolding cwp_entries
  cwp_entries-ok gw e =
      let props = collect_properties gw.spec.app.cluster_properties.properties [] in
      let (bundle, made) =
        ignored-ok "" (build_cwp_bundle R props) e (build_cwp_bundle-Returns props e) in
      (insert "cwp.bundle" bundle [], rw made refl)

  listen_port_entries-ok :
      (gw : Gateway) (e : R.Entropy) → (d : Dict String) × ((listen_port_entries R gw e).0 ≡ ok d)
  unfolding listen_port_entries
  listen_port_entries-ok gw e =
      let ports = gw.spec.app.listen_ports in
      let (bundle, made) =
        ignored-ok "" (build_listen_port_bundle R ports.cipher_suites ports.tls_versions) e
          (build_listen_port_bundle-Returns ports.cipher_suites ports.tls_versions e) in
      (insert "listen-ports.bundle" bundle [], rw made refl)

  config_entries-ok :
      (gw : Gateway) (name : String) (e : R.Entropy)
      → (d : Dict String) × ((config_entries R gw name e).0 ≡ ok d)
  unfolding config_entries
  config_entries-ok gw name e =
      if-ok (name == gw.meta.name <> "-system") _ _ e (_, refl)
        (if-ok (name == gw.meta.name) _ _ e (_, refl)
          (if-ok (name == gw.meta.name <> "-cwp-bundle") _ _ e (cwp_entries-ok gw e) (
            if-ok (name == gw.meta.name <> "-listen-port-bundle") _ _ e
              (listen_port_entries-ok gw e) (_, refl))))

  pub new_config_map-ok :
      (gw : Gateway) (name : String) (e : R.Entropy)
      → (cm : CoreConfigMap) × ((new_config_map R gw name e).0 ≡ ok cm)
  unfolding new_config_map
  new_config_map-ok gw name e =
      proceed-ok_of (config_entries R gw name e).0 (config_entries R gw name e).1 _
        (config_entries-ok gw name e) (λ d s. (_, refl))
