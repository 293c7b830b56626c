-- ===== src/Controller/Equality.antt =====
-- `reflect.DeepEqual` at the types that controller.go compares.
use layer7_operator.Prelude.{Bool, ◌&&◌, ◌==◌}
use layer7_operator.Prelude.Int.{int_eq}
use layer7_operator.Prelude.Slice.{slice_equal, list_equal, option_equal, map_equal}
use layer7_operator.Kube.Meta.{TypeMeta, ObjectMeta}
use layer7_operator.Kube.Net.{
  IngressSpec, IngressRule, HttpIngressPath, HorizontalPodAutoscaler, HpaSpec, ObjectReference,
}

abbrev pub path_equal : HttpIngressPath → HttpIngressPath → Bool
path_equal a b =
    a.path == b.path
    && (option_equal ◌==◌ a.path_type b.path_type
        && (a.service_name == b.service_name && a.service_port == b.service_port))

abbrev pub rule_equal : IngressRule → IngressRule → Bool
rule_equal a b = a.host == b.host && option_equal (list_equal path_equal) a.http b.http

unfoldable pub ingress_spec_equal : IngressSpec → IngressSpec → Bool
ingress_spec_equal a b =
    option_equal ◌==◌ a.ingress_class_name b.ingress_class_name
    && (slice_equal ◌==◌ a.tls b.tls && slice_equal rule_equal a.rules b.rules)

type_meta_equal : TypeMeta → TypeMeta → Bool
type_meta_equal a b = a.api_version == b.api_version && a.kind == b.kind

object_meta_equal : ObjectMeta → ObjectMeta → Bool
object_meta_equal a b =
    a.name == b.name
    && (a.namespace == b.namespace
        && (map_equal a.labels b.labels
            && (map_equal a.annotations b.annotations
                && (list_equal ◌==◌ a.owner_references b.owner_references
                    && a.resource_version == b.resource_version))))

reference_equal : ObjectReference → ObjectReference → Bool
reference_equal a b = a.api_version == b.api_version && (a.kind == b.kind && a.name == b.name)

hpa_spec_equal : HpaSpec → HpaSpec → Bool
unfolding reference_equal
hpa_spec_equal a b =
    reference_equal a.scale_target_ref b.scale_target_ref
    && (option_equal int_eq a.min_replicas b.min_replicas
        && (int_eq a.max_replicas b.max_replicas
            && (slice_equal ◌==◌ a.metrics b.metrics && option_equal ◌==◌ a.behavior b.behavior)))

unfoldable pub hpa_equal : HorizontalPodAutoscaler → HorizontalPodAutoscaler → Bool
unfolding type_meta_equal object_meta_equal hpa_spec_equal
hpa_equal a b =
    type_meta_equal a.type_meta b.type_meta
    && (object_meta_equal a.meta b.meta && (hpa_spec_equal a.spec b.spec && a.status == b.status))
