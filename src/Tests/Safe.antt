-- ===== src/Tests/Safe.antt =====
-- The sample runtime does not panic.
use layer7_operator.Prelude.{refl}
use layer7_operator.Controller.Returns.{IsSafe}
use layer7_operator.Tests.Sample.{sample_runtime}

pub sample_runtime-IsSafe : IsSafe sample_runtime
sample_runtime-IsSafe = record { rand_read = λ n e. refl; range = λ d e. refl; marshal = λ b. refl }
