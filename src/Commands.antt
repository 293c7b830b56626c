-- ===== src/Commands.antt =====
-- clientcmd/clientcmd.go: pod logs, the phase of a pod, and commands in a pod.
pub mod Lines
use layer7_operator.Prelude.{
  ℕ, ◌+◌, String, ◌<>◌, Bool, true, false, ◌&&◌, ◌||◌, not, List, [], ◌∷◌, ◌++◌, Option, none, some,
  Error, Result, value, failure, Outcome, ok, err, panic, if◌then◌else◌, from_result, ◌==◌,
}
use layer7_operator.Prelude.Int.{nat_eq}
use layer7_operator.Prelude.Slice.{Slice}
use layer7_operator.Prelude.Exec.{Exec, ◌>>=◌, ◌>>◌, lift}

abbrev pub Bytes : Type 0
Bytes = List ℕ

-- A stream of bytes, and the error that it ends with, if any.
pub record Stream : Type 0 where
  pub bytes : Bytes
  pub error : Option Error

-- The conditions of a pod: the type and the status of each.
pub record PodCondition : Type 0 where
  pub type : String
  pub status : String

pub record PodPhase : Type 0 where
  pub phase : String
  pub conditions : List PodCondition

-- `corev1.PodExecOptions`
pub record PodExecOptions : Type 0 where
  pub container : String
  pub command : List String
  pub stdin : Bool
  pub stdout : Bool
  pub stderr : Bool
  pub tty : Bool

-- What the functions call of client-go. Streams of a command are opaque.
pub record Cluster : Type 1 where
  pub State : Type 0
  pub Config : Type 0
  pub CoreClient : Type 0
  pub Url : Type 0
  pub Executor : Type 0
  pub Reader : Type 0
  pub Writer : Type 0
  pub client_config : State → Result Config
  pub new_for_config : Config → Result CoreClient
  pub get_logs : CoreClient → String → String → State → Result Stream
  pub get_pod : CoreClient → String → String → State → Result PodPhase
  pub exec_url : CoreClient → String → String → PodExecOptions → Url
  pub new_spdy_executor : Config → Url → Result Executor
  pub stream :
      Executor → Option Reader → Option Writer → Option Writer → Bool → Exec State (Unit {0})

abbrev pub newline : ℕ
newline = 10

abbrev pub carriage_return : ℕ
carriage_return = 13

-- `bufio.MaxScanTokenSize`
abbrev pub max_scan_token_size : ℕ
max_scan_token_size = 65536

-- A trailing carriage return is dropped from a line.
unfoldable pub drop_cr : Bytes → Bytes
drop_cr [] = []
drop_cr (b ∷ []) = if nat_eq b carriage_return then [] else b ∷ []
drop_cr (b ∷ c ∷ bytes) = b ∷ drop_cr (c ∷ bytes)

abbrev pub is_nil : {A : Type 0} → List A → Bool
is_nil [] = true
is_nil (x ∷ xs) = false

abbrev pub length : Bytes → ℕ
length [] = 0
length (b ∷ bytes) = 1 + length bytes

-- `Scan` until it answers false: the lines, and whether one was too long for the buffer. What was read of the
-- current line is given.
unfoldable pub scan_lines : Bytes → Bytes → List Bytes × Bool
unfolding drop_cr
scan_lines line [] = ((if is_nil line then [] else drop_cr line ∷ []), false)
scan_lines line (b ∷ bytes) =
    let ends = nat_eq b newline in
    let (lines, too_long) = scan_lines (if ends then [] else line ++ b ∷ []) bytes in
    if ends
    then (drop_cr line ∷ lines, too_long)
    else if nat_eq (length line + 1) max_scan_token_size
    then ([], true)
    else (lines, too_long)

-- `errors.Wrap` of an error that is not nil.
pub record Wrapped : Type 0 where
  pub message : String
  pub cause : Error

abbrev pub wrap : String → Option Error → Option Wrapped
wrap message none = none
wrap message (some cause) = some (record { message = message; cause = cause })

-- `sc.Err()`: the error of the scanner stands in front of that of the stream.
abbrev pub scan_error : Bool → Option Error → Option Error
scan_error true error = some (Error.other "bufio.Scanner: token too long")
scan_error false error = error

abbrev pub read_logs : Stream → Slice Bytes × Option Wrapped
read_logs logs =
    let (lines, too_long) = scan_lines [] logs.bytes in
    (some lines, wrap "reading logs stream" (scan_error too_long logs.error))

-- What follows the request of the logs.
abbrev pub opened_logs : Result Stream → Slice Bytes × Option Wrapped
opened_logs (failure e) = (none, wrap "get pod logs stream" (some e))
opened_logs (value logs) = read_logs logs

abbrev pub has_condition : List PodCondition → Bool
has_condition [] = false
has_condition (v ∷ conditions) =
    if v.type == "ContainersReady" && v.status == "True" then true else has_condition conditions

abbrev pub is_set : {A : Type 0} → Option A → Bool
is_set none = false
is_set (some a) = true

module _ (K : Cluster) where
  pub record Client : Type 0 where
    pub client : K.CoreClient
    pub restconfig : K.Config

  unfoldable pub new_client : K.State → Result Client
  new_client s = elim (K.client_config s) [
    | failure e ↦ failure e
    | value restconfig ↦ elim (K.new_for_config restconfig) [
      | failure e ↦ failure e
      | value cl ↦ value (record { client = cl; restconfig = restconfig })
    ]
  ]

  unfoldable pub pod_logs : Client → String → String → K.State → Slice Bytes × Option Wrapped
  unfolding scan_lines
  pod_logs c namespace pod_name s = opened_logs (K.get_logs c.client namespace pod_name s)

  unfoldable pub is_pod_running : Client → String → String → K.State → Result Bool
  is_pod_running c namespace pod_name s = elim (K.get_pod c.client namespace pod_name s) [
    | failure e ↦ failure e
    | value pod ↦
        if not (pod.phase == "Running") then value false else value (has_condition pod.conditions)
  ]

  -- `Exec` in the pod of that namespace and name.
  unfoldable pub exec :
      Client
      → String
      → String
      → String
      → List String
      → Option K.Reader
      → Option K.Writer
      → Option K.Writer
      → Bool
      → Exec K.State (Unit {0})
  exec c namespace name container command stdin stdout stderr tty = do
    executor ← lift (
        from_result (
          K.new_spdy_executor c.restconfig (
            K.exec_url c.client namespace name (record {
              container = container;
              command = command;
              stdin = is_set stdin;
              stdout = is_set stdout;
              stderr = is_set stderr;
              tty = tty;
            }))))
    K.stream executor stdin stdout stderr tty
