-- ===== src/Api/Gateway.antt =====
-- The Gateway resource: GatewaySpec, GatewayStatus, GatewayState and Gateway.
use layer7_operator.Prelude.{String, Bool, ◌&&◌, ◌==◌}
use layer7_operator.Prelude.Int.{ℤ, int_eq}
use layer7_operator.Prelude.Slice.{Slice, slice_equal, bool_equal}
use layer7_operator.Kube.Meta.{Raw, TypeMeta, ObjectMeta}
use layer7_operator.Api.Settings.{License}
use layer7_operator.Api.Parts.{App}

pub record GatewaySpec : Type 0 where
  pub license : License
  pub app : App
  pub version : String

pub record GatewayState : Type 0 where
  pub name : String
  pub phase : String
  pub response_time : String
  pub ready : Bool
  pub start_time : String

pub record GatewayStatus : Type 0 where
  pub host : String
  pub conditions : Slice Raw
  pub phase : String
  pub gateway : Slice GatewayState
  pub observed_generation : ℤ
  pub commit_id : String
  pub ready : ℤ
  pub state : String
  pub replicas : ℤ
  pub version : String
  pub image : String
  pub label_selector_path : String
  pub management_pod : String

pub record Gateway : Type 0 where
  pub type_meta : TypeMeta
  pub meta : ObjectMeta
  pub spec : GatewaySpec
  pub status : GatewayStatus

-- `reflect.DeepEqual` of two elements of the status list.
abbrev pub state_equal : GatewayState → GatewayState → Bool
state_equal a b =
    a.name == b.name
    && (a.phase == b.phase
        && (a.response_time == b.response_time
            && (bool_equal a.ready b.ready && a.start_time == b.start_time)))

-- `reflect.DeepEqual` of two statuses.
unfoldable pub status_equal : GatewayStatus → GatewayStatus → Bool
status_equal a b =
    a.host == b.host
    && (slice_equal ◌==◌ a.conditions b.conditions
        && (a.phase == b.phase
            && (slice_equal state_equal a.gateway b.gateway
                && (int_eq a.observed_generation b.observed_generation
                    && (a.commit_id == b.commit_id
                        && (int_eq a.ready b.ready
                            && (a.state == b.state
                                && (int_eq a.replicas b.replicas
                                    && (a.version == b.version
                                        && (a.image == b.image
                                            && (a.label_selector_path == b.label_selector_path
                                                && a.management_pod == b.management_pod)))))))))))
