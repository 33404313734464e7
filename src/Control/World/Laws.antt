-- ===== src/Control/World/Laws.antt =====
-- How a chain of calls goes on, by what its first call returned.
use snack_portal.Common.{◌≡◌, refl, ap, Bool, true, Option, some}
use snack_portal.Control.World.{World, M, ok, raised, Error, ◌>>=◌, raise_if, or_raise}

pub bind_ok :
    {A B : Type 0} (m : M A) (f : A → M B) (w w' : World) (a : A)
    → m w ≡ (ok a, w')
    → ◌>>=◌ m f w ≡ f a w'
unfolding ◌>>=◌
bind_ok m f w w' a e = ap (λ v. ◌>>=◌ (λ _. v) f w) e

pub bind_raised :
    {A B : Type 0} (m : M A) (f : A → M B) (w w' : World) (x : Error)
    → m w ≡ (raised x, w')
    → ◌>>=◌ m f w ≡ (raised x, w')
unfolding ◌>>=◌
bind_raised m f w w' x e = ap (λ v. ◌>>=◌ (λ _. v) f w) e

pub raise_if-true : (b : Bool) (x : Error) (w : World) → b ≡ true → raise_if b x w ≡ (raised x, w)
unfolding raise_if
raise_if-true b x w e = rw e refl

pub or_raise-some :
    {A : Type 0} (o : Option A) (x : Error) (w : World) (a : A)
    → o ≡ some a
    → or_raise o x w ≡ (ok a, w)
unfolding or_raise
or_raise-some o x w a e = rw (e, or_raise) refl
