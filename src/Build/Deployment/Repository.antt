-- ===== src/Build/Deployment/Repository.antt =====
-- The init container that clones the repository (`NewDeployment` of pkg/gateway/deployment.go).
use layer7_operator.Prelude.{Bool, ◌&&◌, [], ◌∷◌, ◌++◌, ◌==◌}
use layer7_operator.Kube.Pods.{Container}
use layer7_operator.Api.Gateway.{Gateway}

unfoldable pub uses_repository_init : Gateway → Bool
uses_repository_init gw = gw.spec.app.repository.enabled && gw.spec.app.repository.method == "init"

unfoldable pub repository_init : Gateway → Container
repository_init gw =
    let repository = gw.spec.app.repository in
    record repository.init {
      env =
          repository.init.env
          ++ record { name = "GIT_REPO_URL"; value = repository.url }
            ∷ record { name = "BUNDLE_DIR"; value = repository.bundle_directory }
            ∷ [];
    }
