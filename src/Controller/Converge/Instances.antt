-- ===== src/Controller/Converge/Instances.antt =====
-- The passes of `Reconcile` over its objects.
use mathlib.Core.Path.{subst}
use layer7_operator.Prelude.{String, false, ◌<>◌, ◌≡◌, refl, ap, sym, ◌∙◌, some, not, []}
use layer7_operator.Prelude.Dict.{Dict, insert, NodupKeys}
use layer7_operator.Prelude.Slice.{map_equal}
use layer7_operator.Prelude.Equality.{dict_equal_refl}
use layer7_operator.Kube.Meta.{ObjectMeta}
use layer7_operator.Kube.Net.{CoreService}
use layer7_operator.Api.Gateway.{Gateway}
use layer7_operator.Runtime.{Runtime}
use layer7_operator.Build.Config.{gateway_entries}
use layer7_operator.Build.Config.Entries.{gateway_entries-NodupKeys}
use layer7_operator.Build.Secret.{new_secret}
use layer7_operator.Build.Service.{new_service, new_management_service}
use layer7_operator.Build.Ingress.{new_ingress}
use layer7_operator.Build.Deployment.{new_deployment}
use layer7_operator.Controller.Client.{Client}
use layer7_operator.Controller.Zero.{
  zero_config_map, zero_secret, zero_service, zero_ingress, zero_deployment,
}
use layer7_operator.Controller.Objects.{own_deployment}
use layer7_operator.Controller.Equality.{ingress_spec_equal}
use layer7_operator.Controller.Repeat.{KeepsKeys, secret_of, new_secret-unchanged}
use layer7_operator.Controller.Repeat.ConfigMap.{map_of, map_differs}
use layer7_operator.Controller.Repeat.Network.{ingress_of, ingress_differs, ingress_spec_equal_refl}
use layer7_operator.Controller.Repeat.Deployment.{
  revised, differs, needs_update-same, meta-revised, revised-view, meta-own_deployment,
  own_deployment-view,
}
use layer7_operator.Controller.Converge.Places.{
  config_maps, secrets, services, ingresses, deployments,
}
use layer7_operator.Controller.Converge.Facts.{core}
use layer7_operator.Controller.Converge.Cores.{
  StandsAt, new_secret-StandsAt, new_service-StandsAt, new_management_service-StandsAt,
  new_ingress-StandsAt, new_deployment-StandsAt, gateway_entries-core, new_secret-core,
  new_ingress-core, differs-core,
}
use layer7_operator.Controller.Converge.Passes.{Pass}

module _ (R : Runtime) (C : Client) (keys : KeepsKeys C) where
  -- With its owner set, an object stands where it stood.
  pub owned-StandsAt :
      (gw : Gateway) (m : ObjectMeta) (name : String)
      → StandsAt m gw name
      → StandsAt (C.set_controller_reference gw m) gw name
  owned-StandsAt gw m name (ns_eq, name_eq) =
      (keys.namespace gw m ∙ ns_eq, keys.name gw m ∙ name_eq)

  -- A ConfigMap whose entries the core of the Gateway gives.
  abbrev pub config_pass :
      (name : Gateway → String) (entries : Gateway → Dict String)
      → ((gw gw' : Gateway) → core gw' ≡ core gw → name gw' ≡ name gw)
      → ((gw gw' : Gateway) → core gw' ≡ core gw → entries gw' ≡ entries gw)
      → ((gw : Gateway) → NodupKeys (entries gw))
      → Pass C
  config_pass name entries name-core entries-core nodup = record {
    kind = config_maps;
    name = name;
    zero_value = zero_config_map;
    fresh = λ gw. map_of R C (name gw) entries gw;
    differs = λ gw y. map_differs R C (name gw) entries gw y;
    revise = λ gw curr. map_of R C (name gw) entries gw;
    name-core = name-core;
    differs-core =
        λ gw gw' e y. ap (λ d. not (map_equal y.contents (some d))) (entries-core gw gw' e);
    fresh-key = λ gw. owned-StandsAt gw _ (name gw) (refl, refl);
    revise-key = λ gw curr. owned-StandsAt gw _ (name gw) (refl, refl);
    differs-fresh = λ gw y e. rw (e, dict_equal_refl (entries gw) (nodup gw)) refl;
    differs-revise = λ gw curr y e. rw (e, dict_equal_refl (entries gw) (nodup gw)) refl;
  }

  abbrev pub gateway_map_pass : Pass C
  gateway_map_pass =
      config_pass (λ gw. gw.meta.name) (gateway_entries R) (λ gw gw' e. ap (λ g. g.meta.name) e)
        (λ gw gw' e. gateway_entries-core gw gw' e R) (gateway_entries-NodupKeys R)

  abbrev pub system_map_pass : Pass C
  system_map_pass =
      config_pass (λ gw. gw.meta.name <> "-system")
        (λ gw. insert "system.properties" gw.spec.app.system.properties [])
        (λ gw gw' e. ap (λ g. g.meta.name <> "-system") e)
        (λ gw gw' e. ap (λ g. insert "system.properties" g.spec.app.system.properties []) e)
        (λ gw. (refl, tt))

  abbrev pub secret_pass : Pass C
  secret_pass = record {
    kind = secrets;
    name = λ gw. gw.meta.name;
    zero_value = zero_secret;
    fresh = λ gw. secret_of R C gw;
    differs = λ gw y. not (map_equal y.contents (new_secret gw).contents);
    revise = λ gw y. secret_of R C gw;
    name-core = λ gw gw' e. ap (λ g. g.meta.name) e;
    differs-core = λ gw gw' e y. ap (λ d. not (map_equal y.contents d)) (new_secret-core gw gw' e);
    fresh-key = λ gw. owned-StandsAt gw _ gw.meta.name (new_secret-StandsAt gw);
    revise-key = λ gw y. owned-StandsAt gw _ gw.meta.name (new_secret-StandsAt gw);
    differs-fresh = λ gw y e. rw e (new_secret-unchanged gw);
    differs-revise = λ gw curr y e. rw e (new_secret-unchanged gw);
  }

  -- A Service that is there is never revised.
  abbrev made_service : (Gateway → CoreService) → Gateway → CoreService
  made_service make gw =
      let svc = make gw in record svc { meta = C.set_controller_reference gw svc.meta }

  abbrev pub service_pass : Pass C
  service_pass = record {
    kind = services;
    name = λ gw. gw.meta.name;
    zero_value = zero_service;
    fresh = made_service new_service;
    differs = λ gw y. false;
    revise = λ gw y. made_service new_service gw;
    name-core = λ gw gw' e. ap (λ g. g.meta.name) e;
    differs-core = λ gw gw' e y. refl;
    fresh-key = λ gw. owned-StandsAt gw _ gw.meta.name (new_service-StandsAt gw);
    revise-key = λ gw y. owned-StandsAt gw _ gw.meta.name (new_service-StandsAt gw);
    differs-fresh = λ gw y e. refl;
    differs-revise = λ gw curr y e. refl;
  }

  abbrev pub management_service_pass : Pass C
  management_service_pass = record {
    kind = services;
    name = λ gw. gw.meta.name <> "-management-service";
    zero_value = zero_service;
    fresh = made_service new_management_service;
    differs = λ gw y. false;
    revise = λ gw y. made_service new_management_service gw;
    name-core = λ gw gw' e. ap (λ g. g.meta.name <> "-management-service") e;
    differs-core = λ gw gw' e y. refl;
    fresh-key = λ gw. owned-StandsAt gw _ _ (new_management_service-StandsAt gw);
    revise-key = λ gw y. owned-StandsAt gw _ _ (new_management_service-StandsAt gw);
    differs-fresh = λ gw y e. refl;
    differs-revise = λ gw curr y e. refl;
  }

  abbrev pub ingress_pass : Pass C
  ingress_pass = record {
    kind = ingresses;
    name = λ gw. gw.meta.name;
    zero_value = zero_ingress;
    fresh = λ gw. ingress_of R C gw;
    differs = λ gw y. ingress_differs R C gw y;
    revise = λ gw y. ingress_of R C gw;
    name-core = λ gw gw' e. ap (λ g. g.meta.name) e;
    differs-core =
        λ gw gw' e y. ap (λ spec. not (ingress_spec_equal y.spec spec)) (new_ingress-core gw gw' e);
    fresh-key = λ gw. owned-StandsAt gw _ gw.meta.name (new_ingress-StandsAt gw);
    revise-key = λ gw y. owned-StandsAt gw _ gw.meta.name (new_ingress-StandsAt gw);
    differs-fresh = λ gw y e. rw (e, ingress_spec_equal_refl (new_ingress gw).spec) refl;
    differs-revise = λ gw curr y e. rw (e, ingress_spec_equal_refl (new_ingress gw).spec) refl;
  }

  abbrev pub deployment_pass : Pass C
  deployment_pass = record {
    kind = deployments;
    name = λ gw. gw.meta.name;
    zero_value = zero_deployment;
    fresh = λ gw. own_deployment C gw (new_deployment gw);
    differs = λ gw y. differs R C gw y;
    revise = λ gw y. revised R C gw y;
    name-core = λ gw gw' e. ap (λ g. g.meta.name) e;
    differs-core = λ gw gw' e y. differs-core R C gw gw' e y;
    fresh-key = λ gw.
        subst (λ m. StandsAt m gw gw.meta.name) (sym (meta-own_deployment R C gw))
          (owned-StandsAt gw _ gw.meta.name (new_deployment-StandsAt gw));
    revise-key = λ gw y.
        subst (λ m. StandsAt m gw gw.meta.name) (sym (meta-revised R C gw y))
          (owned-StandsAt gw _ gw.meta.name (new_deployment-StandsAt gw));
    differs-fresh = λ gw y e. needs_update-same R C gw y (e ∙ own_deployment-view R C gw);
    differs-revise = λ gw curr y e. needs_update-same R C gw y (e ∙ revised-view R C gw curr);
  }
