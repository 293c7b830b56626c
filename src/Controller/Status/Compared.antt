-- ===== src/Controller/Status/Compared.antt =====
-- `reflect.DeepEqual` of two statuses.
use layer7_operator.Prelude.{String, Bool, true, ◌≡◌, refl, ◌==◌, eq_refl, eq_iff}
use layer7_operator.Prelude.Int.{ℤ, int_eq, int_eq_iff}
use layer7_operator.Prelude.Slice.{Slice, slice_equal, list_equal, bool_equal}
use layer7_operator.Prelude.Equality.{
  both, list_equal_refl, option_equal_refl, list_equal_sound, option_equal_sound, bool_equal_sound,
}
use layer7_operator.Api.Gateway.{GatewayState, GatewayStatus, state_equal, status_equal}

text_sound : (a b : String) → (a == b) ≡ true → a ≡ b
text_sound a b = (eq_iff a b).0

int_sound : (a b : ℤ) → int_eq a b ≡ true → a ≡ b
int_sound a b = (int_eq_iff a b).0

int_refl : (a : ℤ) → int_eq a a ≡ true
int_refl a = (int_eq_iff a a).1 refl

bool_refl : (a : Bool) → bool_equal a a ≡ true
bool_refl true = refl
bool_refl Bool.false = refl

state_equal_sound : (a b : GatewayState) → state_equal a b ≡ true → a ≡ b
state_equal_sound a b h =
    let (name, h₁) = both (a.name == b.name) _ h in
    let (phase, h₂) = both (a.phase == b.phase) _ h₁ in
    let (response_time, h₃) = both (a.response_time == b.response_time) _ h₂ in
    let (ready, start_time) = both (bool_equal a.ready b.ready) _ h₃ in
    λ i. record {
      name = text_sound a.name b.name name i;
      phase = text_sound a.phase b.phase phase i;
      response_time = text_sound a.response_time b.response_time response_time i;
      ready = bool_equal_sound a.ready b.ready ready i;
      start_time = text_sound a.start_time b.start_time start_time i;
    }

state_equal_refl : (a : GatewayState) → state_equal a a ≡ true
state_equal_refl a = rw (eq_refl, eq_refl, eq_refl, bool_refl, eq_refl) refl

texts_sound : (a b : Slice String) → slice_equal ◌==◌ a b ≡ true → a ≡ b
texts_sound = option_equal_sound (list_equal ◌==◌) (list_equal_sound ◌==◌ text_sound)

states_sound : (a b : Slice GatewayState) → slice_equal state_equal a b ≡ true → a ≡ b
states_sound =
    option_equal_sound (list_equal state_equal) (list_equal_sound state_equal state_equal_sound)

-- Statuses that are found equal are the same.
pub status_equal_sound : (a b : GatewayStatus) → status_equal a b ≡ true → a ≡ b
unfolding status_equal
status_equal_sound a b h =
    let (host, h₁) = both (a.host == b.host) _ h in
    let (conditions, h₂) = both (slice_equal ◌==◌ a.conditions b.conditions) _ h₁ in
    let (phase, h₃) = both (a.phase == b.phase) _ h₂ in
    let (gateway, h₄) = both (slice_equal state_equal a.gateway b.gateway) _ h₃ in
    let (generation, h₅) = both (int_eq a.observed_generation b.observed_generation) _ h₄ in
    let (commit_id, h₆) = both (a.commit_id == b.commit_id) _ h₅ in
    let (ready, h₇) = both (int_eq a.ready b.ready) _ h₆ in
    let (state, h₈) = both (a.state == b.state) _ h₇ in
    let (replicas, h₉) = both (int_eq a.replicas b.replicas) _ h₈ in
    let (version, k₁) = both (a.version == b.version) _ h₉ in
    let (image, k₂) = both (a.image == b.image) _ k₁ in
    let (path, pod) = both (a.label_selector_path == b.label_selector_path) _ k₂ in
    λ i. record {
      host = text_sound a.host b.host host i;
      conditions = texts_sound a.conditions b.conditions conditions i;
      phase = text_sound a.phase b.phase phase i;
      gateway = states_sound a.gateway b.gateway gateway i;
      observed_generation = int_sound a.observed_generation b.observed_generation generation i;
      commit_id = text_sound a.commit_id b.commit_id commit_id i;
      ready = int_sound a.ready b.ready ready i;
      state = text_sound a.state b.state state i;
      replicas = int_sound a.replicas b.replicas replicas i;
      version = text_sound a.version b.version version i;
      image = text_sound a.image b.image image i;
      label_selector_path = text_sound a.label_selector_path b.label_selector_path path i;
      management_pod = text_sound a.management_pod b.management_pod pod i;
    }

-- A status is found equal to itself.
pub status_equal_refl : (a : GatewayStatus) → status_equal a a ≡ true
unfolding status_equal
status_equal_refl a =
    rw
      (
        eq_refl a.host,
        option_equal_refl (list_equal ◌==◌) (list_equal_refl ◌==◌ eq_refl) a.conditions,
        eq_refl a.phase,
        option_equal_refl (list_equal state_equal) (list_equal_refl state_equal state_equal_refl)
            a.gateway,
        int_refl a.observed_generation,
        eq_refl a.commit_id,
        int_refl a.ready,
        eq_refl a.state,
        int_refl a.replicas,
        eq_refl a.version,
        eq_refl a.image,
        eq_refl a.label_selector_path,
        eq_refl a.management_pod,
      )
      refl
