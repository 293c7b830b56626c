-- ===== src/Build/Config/Heap.antt =====
-- The heap size of the gateway's Java virtual machine (`setJVMHeapSize` of pkg/gateway/config/config.go).
use layer7_operator.Prelude.{String, ◌<>◌, ◌≡◌, refl, ◌==◌, if◌then◌else◌, Bool-cases, inl, inr}
use layer7_operator.Prelude.Texts.{append-ne_empty}
use layer7_operator.Api.Gateway.{Gateway}
use layer7_operator.Runtime.{Runtime}
use layer7_operator.Build.Config.{set_jvm_heap_size}

module _ (R : Runtime) (gw : Gateway) where
  -- The share of the memory limit, in megabytes.
  abbrev pub megabytes : String
  megabytes = R.format_int (
      R.int64 (
        R.mul
          (R.mul (R.float64 (R.memory_value gw.spec.app.resources.limits))
            (R.constant "0.00000095367432"))
          (R.div (R.float64 gw.spec.app.java.jvm_heap.percentage) (R.constant "100.0"))))

  -- The heap size is "2g" unless it is to be calculated; then it is the share of the memory limit with
  -- the unit "m", or, where there is no limit, the default of the spec, or "2g" without one.
  pub set_jvm_heap_size-cases : set_jvm_heap_size R gw ≡ (
      if gw.spec.app.java.jvm_heap.calculate
      then if R.memory_is_zero gw.spec.app.resources.limits
        then if gw.spec.app.java.jvm_heap.default == ""
          then "2g"
          else gw.spec.app.java.jvm_heap.default
        else megabytes <> "m"
      else "2g")
  unfolding set_jvm_heap_size
  set_jvm_heap_size-cases = elim (Bool-cases gw.spec.app.java.jvm_heap.calculate) [
    | inr off ↦ rw off refl
    | inl on ↦ elim (Bool-cases (R.memory_is_zero gw.spec.app.resources.limits)) [
      | inr limit ↦ rw (on, limit, append-ne_empty megabytes) refl
      | inl zero ↦ elim (Bool-cases (gw.spec.app.java.jvm_heap.default == "")) [
        | inl e ↦ rw (on, zero, e) refl
        | inr e ↦ rw (on, zero, e) (rw e refl)
      ]
    ]
  ]
