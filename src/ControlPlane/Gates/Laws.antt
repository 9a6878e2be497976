-- ===== src/ControlPlane/Gates/Laws.antt =====
-- What every gate's verdict says, whatever the outside world does.
use tomorrowedge.Prelude.{◌≡◌, false, none, arith}
use tomorrowedge.ControlPlane.Specs.{GateSpec, GateResult}
use tomorrowedge.ControlPlane.Host.{Host}
use tomorrowedge.ControlPlane.Gates.{GateContext, run_gate}

-- The verdict names its gate, and one without evidence has failed.
pub record IsVerdictOf (spec : GateSpec) (result : GateResult) : Type 0 where
  pub same_id : result.id ≡ spec.id
  pub same_type : result.type ≡ spec.type
  pub same_required : result.required ≡ spec.required
  pub unlogged_fails : result.evidence_path ≡ none → result.passed ≡ false

-- Every gate of the matrix, whatever its type and whatever the outside world does, gives a verdict
-- with the gate's own id, type and required flag, and a verdict without evidence has not passed.
pub run_gate-IsVerdictOf :
    {W : Type 0} (host : Host W) (context : GateContext) (spec : GateSpec) (w : W)
    → IsVerdictOf spec (run_gate host context spec w).1
unfolding run_gate
run_gate-IsVerdictOf host context spec w = ground arith
