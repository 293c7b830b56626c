-- ===== src/Controller/Commit/Recorded.antt =====
-- The commit that `reconcileBundles` of controller.go records in the status.
use layer7_operator.Runtime.{Runtime}
use layer7_operator.Controller.Client.{Client}
use layer7_operator.Controller.Run.{Run}
use layer7_operator.Api.Gateway.{Gateway}
