-- ===== src/Controller/Commit.antt =====
-- `GetLatestCommit` of pkg/gateway/util/git.go and `reconcileBundles` of controller.go.
pub mod Recorded
use layer7_operator.Prelude.{
  String, Outcome, err, panic, value, failure, from_result, Option, none, some, not, ◌==◌,
}
use layer7_operator.Prelude.Exec.{Exec, lift, ◌>>=◌, ◌>>◌}
use layer7_operator.Api.Gateway.{Gateway}
use layer7_operator.Runtime.{Runtime}
use layer7_operator.Controller.Client.{Client}
use layer7_operator.Controller.Run.{Run, read, ask, modify_gateway, when, update_status}

abbrev pub set_commit_id : String → Gateway → Gateway
set_commit_id commit gw = record gw { status = record gw.status { commit_id = commit } }

module _ (C : Client) where
  -- The error of `Head` is ignored, and its nil reference is dereferenced.
  unfoldable pub head_commit : C.Repo → Option String → Outcome String
  head_commit repo none = panic
  head_commit repo (some hash) = from_result (C.commit_object repo hash)

  unfoldable pub get_latest_commit : String → C.State → Outcome String
  unfolding head_commit
  get_latest_commit url s = elim (C.clone url s) [
    | value repo ↦ head_commit repo (C.head repo)
    | failure e ↦ err e
  ]

module _ {R : Runtime} {C : Client} where
  unfoldable pub reconcile_bundles : Exec (Run R C) (Unit {0})
  reconcile_bundles = do
    gw ← ask (λ gw. gw)
    latest ← read (get_latest_commit C gw.spec.app.repository.url)
    commit ← lift latest
    when (not (gw.status.commit_id == commit))
        (modify_gateway (set_commit_id commit) >> update_status)
