-- ===== src/Control/Recovery/Latch.antt =====
-- Calls that share the latch of one request (`_TerminalLatch` of recovery.py): a flag that survives
-- an exception.
use snack_portal.Common.{Bool, true}
use snack_portal.Control.World.{M, World, Result, ok, raised}

abbrev pub L : Type 0 → Type 0
L A = Bool → World → Result A × Bool × World

unfoldable pub pure : {A : Type 0} → A → L A
pure a b w = (ok a, b, w)

-- A call that has no access to the latch.
unfoldable pub lift : {A : Type 0} → M A → L A
lift m b w = let (r, w') = m w in (r, b, w')

-- `latch.attempted = True`
unfoldable pub set_latch : L (Unit {0})
set_latch b w = (ok tt, true, w)

infixl 5 ◌>>=◌ ◌>>◌
unfoldable pub ◌>>=◌ : {A B : Type 0} → L A → (A → L B) → L B
unfolding pure lift set_latch
◌>>=◌ m f b w =
    let (r, b', w') = m b w in elim r [ ok a ↦ f a b' w' | raised e ↦ (raised e, b', w') ]

abbrev pub ◌>>◌ : {A B : Type 0} → L A → L B → L B
m >> k = m >>= λ _. k
