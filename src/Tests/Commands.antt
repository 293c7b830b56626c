-- ===== src/Tests/Commands.antt =====
-- The start of the operator, REST calls and client commands, at concrete inputs.
use layer7_operator.Prelude.{
  ℕ, zero, suc, List, [], ◌∷◌, ◌++◌, ◌≡◌, refl, All, false, none, some, value, ok, Error, arith,
}
use layer7_operator.Startup.{Flags, manager_options}
use layer7_operator.Startup.Watched.{watched, manager_options-watched}
use layer7_operator.Namespaces.{get_operator_namespace, trim_space, trim_left, trim_right}
use layer7_operator.Rest.{Http, rest_call, read_body}
use layer7_operator.Rest.Replies.{Succeeded, rest_call-Succeeded}
use layer7_operator.Commands.{Bytes, Stream, Cluster, Client, length, drop_cr, pod_logs}
use layer7_operator.Commands.Lines.{
  HasNoNewline, IsLine, lines_text, pod_logs-lines, pod_logs-too_long,
}

abbrev sample_flags : Flags
sample_flags = record {
  metrics_addr = ":8080";
  probe_addr = ":8081";
  enable_leader_election = false;
}

manager_options-watched_example :
    watched (manager_options sample_flags "team_a,team_b") ≡ "team_a" ∷ "team_b" ∷ []
manager_options-watched_example =
    manager_options-watched sample_flags "team_a" ("team_b" ∷ []) refl (refl, tt)

trim_test : get_operator_namespace (value " layer7\n") ≡ value "layer7"
unfolding get_operator_namespace trim_space trim_left trim_right
trim_test = refl

-- A server that answers each request with its body, and counts the bodies that are open.
abbrev echo : Http
echo = record {
  State = ℕ;
  Body = List ℕ;
  check_request = λ method url. value tt;
  send = λ request s. (ok (201, "201 Created", request.body), suc s);
  read_all = λ body s. (ok body, s);
  close = λ body s. zero;
}

called :
    rest_call echo "POST" "https://gateway:8443/restman" "application/xml"
      (60 ∷ 62 ∷ [])
      "admin"
      "7layer"
      0
    ≡ (ok (60 ∷ 62 ∷ []), 0)
unfolding rest_call read_body
called = refl

rest_call-Succeeded_example :
    Succeeded echo
      (record {
        method = "POST";
        url = "https://gateway:8443/restman";
        body = 60 ∷ 62 ∷ [];
        content_type = "application/xml";
        username = "admin";
        password = "7layer";
      })
      0
      (60 ∷ 62 ∷ [])
      0
rest_call-Succeeded_example =
    rest_call-Succeeded echo "POST" "https://gateway:8443/restman" "application/xml" (60 ∷ 62 ∷ [])
      "admin" "7layer" 0 0 (60 ∷ 62 ∷ []) called

-- A cluster whose state is the log of every pod.
abbrev log_cluster : Cluster
log_cluster = record {
  State = Stream;
  Config = Unit {0};
  CoreClient = Unit {0};
  Url = Unit {0};
  Executor = Unit {0};
  Reader = Unit {0};
  Writer = Unit {0};
  client_config = λ s. value tt;
  new_for_config = λ config. value tt;
  get_logs = λ client ns name s. value s;
  get_pod = λ client ns name s. value (record { phase = "Running"; conditions = [] });
  exec_url = λ client ns name options. tt;
  new_spdy_executor = λ config url. value tt;
  stream = λ executor stdin stdout stderr tty s. (ok tt, s);
}

abbrev log_client : Client log_cluster
log_client = record { client = tt; restconfig = tt }

abbrev two_lines : List Bytes
two_lines = (111 ∷ 107 ∷ []) ∷ [] ∷ []

two_lines-IsLine : All IsLine two_lines
unfolding drop_cr
two_lines-IsLine = (
  record { no_newline = (ground arith, (ground arith, tt)); no_cr = refl; fits = omega arith },
  (record { no_newline = tt; no_cr = refl; fits = omega arith }, tt),
)

pod_logs-lines_example :
    pod_logs log_cluster log_client "ns" "ssg-0"
      (record { bytes = 111 ∷ 107 ∷ 10 ∷ 10 ∷ []; error = none })
    ≡ (some two_lines, none)
pod_logs-lines_example =
    pod_logs-lines log_client "ns" "ssg-0"
      (record { bytes = 111 ∷ 107 ∷ 10 ∷ 10 ∷ []; error = none }) two_lines two_lines-IsLine refl

letters : ℕ → Bytes
letters zero = []
letters (suc n) = 97 ∷ letters n

letters-length : (n : ℕ) → length (letters n) ≡ n
unfolding letters
letters-length zero = refl
letters-length (suc n) = ground (arith, letters-length n)

letters-HasNoNewline : (n : ℕ) → HasNoNewline (letters n)
unfolding letters
letters-HasNoNewline zero = tt
letters-HasNoNewline (suc n) = (ground arith, letters-HasNoNewline n)

pod_logs-too_long_example :
    pod_logs log_cluster log_client "ns" "ssg-0"
      (record { bytes = lines_text two_lines ++ (letters 70000 ++ 10 ∷ []); error = none })
    ≡ (
      some two_lines,
      some (record {
        message = "reading logs stream";
        cause = Error.other "bufio.Scanner: token too long";
      }),
    )
pod_logs-too_long_example =
    pod_logs-too_long log_client "ns" "ssg-0"
      (record { bytes = lines_text two_lines ++ (letters 70000 ++ 10 ∷ []); error = none })
      two_lines (letters 70000) (10 ∷ []) none two_lines-IsLine (letters-HasNoNewline 70000)
      (ground (arith, letters-length 70000)) refl
