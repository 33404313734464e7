-- ===== src/Control/World.antt =====
-- The calls of the control plane's services: state, exceptions, the outside world, and the other
-- writers. A call sees `World`. The commits of other writers wait in `pending`; the next one takes
-- effect when a service next reads or writes the shared tables, so the list is the interleaving.
pub mod Laws
pub mod Sees
use snack_portal.Common.{ℕ, ◌+◌, Bool, Option, none, some, List, [], ◌∷◌, ◌++◌, if◌then◌else◌}
use snack_portal.Common.Text.{Text}
use snack_portal.Control.Records.{Shared}

-- The exceptions by class, as far as a handler or a caller tells them apart.
pub data Error : Type 0 where
  -- `RegistryError`
  reserved_identifier malformed_identifier unknown_tenant illegal_transition : Error
  -- `ProvisioningError` and `OnboardingError` share the last two messages; the gate adds this one
  concurrent_transition : Error
  -- `PhaseFourDeferred`
  phase_four_deferred : Error
  -- `ControlStoreConcurrencyError`, `DistinctnessCollisionError`, `RecoveryError`
  stale_version fingerprint_collision inventory_unavailable control_unavailable : Error
  -- whatever an external port raises
  port_failure : ℕ → Error

pub data Result {ℓ} (A : Type ℓ) : Type ℓ where
  ok : A → Result A
  raised : Error → Result A

-- The calls of the provisioning operator, which creates and drops databases.
pub data Effect : Type 0 where
  provisioned deprovisioned : Text → Effect
  schema_applied : Text → Effect
  router_invalidated : Text → Effect

pub record World : Type 0 where
  pub shared : Shared
  pub pending : List (Shared → Shared)
  -- how many calls have left the program so far; the ports and the clock answer by it
  pub tick : ℕ
  -- the calls that change something outside, the earliest first
  pub effects : List Effect

abbrev pub M : Type 0 → Type 0
M A = World → Result A × World

unfoldable pub pure : {A : Type 0} → A → M A
pure a w = (ok a, w)

unfoldable pub raise : {A : Type 0} → Error → M A
raise e w = (raised e, w)

unfoldable pub raise_if : Bool → Error → M (Unit {0})
raise_if b e w = (if b then raised e else ok tt, w)

unfoldable pub or_raise : {A : Type 0} → Option A → Error → M A
or_raise none e w = (raised e, w)
or_raise (some a) e w = (ok a, w)

-- `try: m` with a handler for every exception: what ran before the exception stays.
unfoldable pub attempt : {A : Type 0} → M A → M (Result A)
attempt m w = let (r, w') = m w in (ok r, w')

-- A call that leaves the program.
unfoldable pub call : {A : Type 0} → (ℕ → Result A) → M A
call f w = (f w.tick, record w { tick = w.tick + 1 })

unfoldable pub note : Effect → M (Unit {0})
note e w = (ok tt, record w { effects = w.effects ++ e ∷ [] })

-- The next commit of another writer, if there is one.
unfoldable pub interfere : World → World
interfere w = elim w.pending [
  | [] ↦ w
  | f ∷ rest ↦ record w { shared = f w.shared; pending = rest }
]

-- A moment between two calls, at which another writer may commit.
unfoldable pub turn : M (Unit {0})
unfolding interfere
turn w = (ok tt, interfere w)

-- A read of the shared tables.
unfoldable pub gets : {A : Type 0} → (Shared → A) → M A
unfolding interfere
gets f w = let w' = interfere w in (ok (f w'.shared), w')

-- A write, with the test of the tables that it may begin with, as one atomic step.
unfoldable pub update : {A : Type 0} → (Shared → Result A × Shared) → M A
unfolding interfere
update f w = let w' = interfere w in let (r, s) = f w'.shared in (r, record w' { shared = s })

infixl 5 ◌>>=◌ ◌>>◌
-- Opening it opens every way to build a call.
unfoldable pub ◌>>=◌ : {A B : Type 0} → M A → (A → M B) → M B
unfolding pure raise raise_if or_raise attempt call note turn gets update
◌>>=◌ m f w = let (r, w') = m w in elim r [ ok a ↦ f a w' | raised e ↦ (raised e, w') ]

abbrev pub ◌>>◌ : {A B : Type 0} → M A → M B → M B
m >> k = m >>= λ _. k

-- Who asks, and in which request.
pub record Context : Type 0 where
  pub actor : Text
  pub correlation_id : Text
