-- ===== src/Control/Operations.antt =====
-- The operations of the control plane as one alphabet, and a session of them: the service keeps
-- what an operation did before it raised, and serves the next one.
pub mod History
pub mod Refusals
use snack_portal.Common.{List, [], ◌∷◌}
use snack_portal.Common.Text.{Text}
use snack_portal.Control.Records.{SecretRef}
use snack_portal.Control.World.{World, Context}
use snack_portal.Control.Ports.{Ports}
use snack_portal.Control.Registry
use snack_portal.Control.Provisioning
use snack_portal.Control.Provisioning.{Gate}
use snack_portal.Control.Onboarding
use snack_portal.Control.Recovery.Deprovision

pub data Operation : Type 0 where
  register : Text → Text → Text → SecretRef → Text → Operation
  mark_provisioning suspend decommission quarantine : Text → Operation
  verify : Text → Operation
  reassociate : Text → SecretRef → Operation
  disable_routing : Text → Operation
  onboard : Text → Text → Text → Text → Operation
  recover : Text → Operation
  deprovision : Text → Operation

module _ (ports : Ports) (gate : Gate) where
  -- The world after one operation, whether it returned or raised.
  unfoldable pub perform : Context → Operation → World → World
  perform ctx (Operation.register i org schema ref federation) w =
      (Registry.register_tenant ports ctx i org schema ref federation w).1
  perform ctx (Operation.mark_provisioning i) w = (Registry.mark_provisioning ports ctx i w).1
  perform ctx (Operation.suspend i) w = (Registry.suspend_tenant ports ctx i w).1
  perform ctx (Operation.decommission i) w = (Registry.decommission_tenant ports ctx i w).1
  perform ctx (Operation.quarantine i) w = (Registry.quarantine_tenant ports ctx i w).1
  perform ctx (Operation.verify i) w = (Provisioning.verify ports gate ctx i w).1
  perform ctx (Operation.reassociate i ref) w = (Provisioning.reassociate ports gate ctx i ref w).1
  perform ctx (Operation.disable_routing i) w = (Provisioning.disable_routing ports ctx i w).1
  perform ctx (Operation.onboard i org federation schema) w =
      (Onboarding.onboard ports gate ctx i org federation schema w).1
  perform ctx (Operation.recover i) w = (Onboarding.recover ports gate ctx i w).1
  perform ctx (Operation.deprovision i) w =
      (Deprovision.deprovision_tenant_database ports gate.supported ctx i w).1

  unfoldable pub session : List (Context × Operation) → World → World
  session [] w = w
  session ((ctx, op) ∷ ops) w = session ops (perform ctx op w)
