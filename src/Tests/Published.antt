-- ===== src/Tests/Published.antt =====
-- What a status update leaves at the server, at a cluster in memory.
use layer7_operator.Prelude.{[], ◌∷◌}
use layer7_operator.Api.Gateway.{Gateway}
use layer7_operator.Controller.Run.{Run}
use layer7_operator.Controller.Commit.{reconcile_bundles}
use layer7_operator.Controller.Leader.{tag_management_pod}
use layer7_operator.Tests.Sample.{sample_runtime, sample}
use layer7_operator.Tests.Cluster.{sample_client}
use layer7_operator.Tests.Passes.{status_run}

-- The Gateway is there.
abbrev stored_run : Run sample_runtime sample_client
stored_run = record status_run { cluster = record status_run.cluster { gateways = sample ∷ [] } }

abbrev commit_run : Run sample_runtime sample_client
commit_run = (reconcile_bundles stored_run).1

abbrev tagged_run : Run sample_runtime sample_client
tagged_run = (tag_management_pod stored_run).1
