-- ===== src/Control/World/Sees.antt =====
-- What a call has established when it returns, for the calls that change nothing outside the program,
-- and the moments of a run: the tables as they stand after so many reads.
use snack_portal.Common.{
  ℕ, zero, suc, ◌≡◌, refl, sym, ap, ◌∙◌, Bool, true, false, Option, none, some, List, [], ◌∷◌,
  if◌then◌else◌,
}
use snack_portal.Common.Text.{Text}
use snack_portal.Control.Records.{TenantLifecycleState, Shared, Action}
use snack_portal.Control.World.{
  World, M, Result, ok, raised, Error, ◌>>=◌, pure, raise_if, or_raise, call, gets, update,
  interfere, Context,
}
use snack_portal.Control.Ports.{Ports}
use snack_portal.Control.Store.{record_audit, event}

abbrev pub Returned : {A : Type 0} → (A → World → Type 0) → Result A × World → Type 0
Returned P (ok a, w) = P a w
Returned P (raised e, w) = Unit

-- Called in `w`, it calls no operator, and a result satisfies `P` with the world it is returned in.
pub record Sees {A : Type 0} (w : World) (m : M A) (P : A → World → Type 0) : Type 0 where
  pub quiet : (m w).1.effects ≡ w.effects
  pub seen : Returned P (m w)

abbrev pub Anything : {A : Type 0} → A → World → Type 0
Anything a w = Unit

after :
    {A B : Type 0} (f : A → M B) (P : A → World → Type 0) (Q : B → World → Type 0) (v : World)
    (r : Result A × World)
    → r.1.effects ≡ v.effects
    → Returned P r
    → ((a : A) (w : World) → P a w → Sees w (f a) Q)
    → Sees v (◌>>=◌ (λ _. r) f) Q
unfolding ◌>>=◌
after f P Q v (ok a, w) same h kf = record {
  quiet = (kf a w h).quiet ∙ same;
  seen = (kf a w h).seen;
}
after f P Q v (raised x, w) same h kf = record { quiet = same; seen = tt }

pub Sees-bind :
    {A B : Type 0} {w : World} {m : M A} {f : A → M B} {P : A → World → Type 0}
    {Q : B → World → Type 0}
    → Sees w m P
    → ((a : A) (v : World) → P a v → Sees v (f a) Q)
    → Sees w (m >>= f) Q
unfolding ◌>>=◌
Sees-bind {w = w} {m = m} {f = f} {P = P} {Q = Q} km kf =
    let h : Sees w (◌>>=◌ (λ _. m w) f) Q = after f P Q w (m w) km.quiet km.seen kf in
    record { quiet = h.quiet; seen = h.seen }

pub Sees-pure :
    {A : Type 0} {P : A → World → Type 0} (a : A) (w : World) → P a w → Sees w (pure a) P
unfolding pure
Sees-pure a w h = record { quiet = refl; seen = h }

pub Sees-raise_if : (b : Bool) (e : Error) (w : World) → Sees w (raise_if b e) Anything
unfolding raise_if
Sees-raise_if true e w = record { quiet = refl; seen = tt }
Sees-raise_if false e w = record { quiet = refl; seen = tt }

pub Sees-or_raise :
    {A : Type 0} (o : Option A) (e : Error) (w : World) → Sees w (or_raise o e) Anything
unfolding or_raise
Sees-or_raise none e w = record { quiet = refl; seen = tt }
Sees-or_raise (some a) e w = record { quiet = refl; seen = tt }

pub Sees-if :
    {A : Type 0} {w : World} {m n : M A} {P : A → World → Type 0} (b : Bool)
    → (b ≡ true → Sees w m P)
    → (b ≡ false → Sees w n P)
    → Sees w (if b then m else n) P
Sees-if true km kn = km refl
Sees-if false km kn = kn refl

-- The world after `n` reads that nothing but other writers' commits came between.
unfoldable pub moment : ℕ → World → World
moment zero w = w
moment (suc n) w = interfere (moment n w)

-- The tables and the waiting commits are those of that moment.
pub record IsAt (base : World) (n : ℕ) (w : World) : Type 0 where
  pub shared : w.shared ≡ (moment n base).shared
  pub pending : w.pending ≡ (moment n base).pending

pub start-IsAt : (w : World) → IsAt w zero w
unfolding moment
start-IsAt w = record { shared = refl; pending = refl }

pub interfere_of : List (Shared → Shared) → Shared → Shared
interfere_of [] s = s
interfere_of (f ∷ rest) s = f s

pub rest_of : List (Shared → Shared) → List (Shared → Shared)
rest_of [] = []
rest_of (f ∷ rest) = rest

pub interfere_parts :
    (w : World)
    → ((interfere w).shared ≡ interfere_of w.pending w.shared)
      × ((interfere w).pending ≡ rest_of w.pending)
      × ((interfere w).effects ≡ w.effects)
unfolding interfere interfere_of rest_of
interfere_parts w = go w.pending refl
  where
    go :
        (p : List (Shared → Shared))
        → w.pending ≡ p
        → ((interfere w).shared ≡ interfere_of w.pending w.shared)
          × ((interfere w).pending ≡ rest_of w.pending)
          × ((interfere w).effects ≡ w.effects)
    go [] e = rw (e, interfere) (refl, e, refl)
    go (f ∷ rest) e = rw (e, interfere) (refl, refl, refl)

pub interfere-IsAt :
    (base : World) (n : ℕ) (w : World) → IsAt base n w → IsAt base (suc n) (interfere w)
unfolding moment
interfere-IsAt base n w h =
    let (s, p, _) = interfere_parts w in
    let (s', p', _) = interfere_parts (moment n base) in
    record {
      shared =
          s
          ∙ (ap (λ q. interfere_of q w.shared) h.pending
              ∙ (ap (interfere_of (moment n base).pending) h.shared ∙ sym s'));
      pending = p ∙ (ap rest_of h.pending ∙ sym p');
    }

pub Sees-gets :
    {A : Type 0} (f : Shared → A) (base : World) (n : ℕ) (w : World)
    → IsAt base n w
    → Sees w (gets f) (λ a v. IsAt base (suc n) v × (a ≡ f (moment (suc n) base).shared))
unfolding gets
Sees-gets f base n w h =
    let h' = interfere-IsAt base n w h in
    record { quiet = (interfere_parts w).2; seen = (h', ap f h'.shared) }

pub Sees-read : {A : Type 0} (f : Shared → A) (w : World) → Sees w (gets f) Anything
unfolding gets
Sees-read f w = record { quiet = (interfere_parts w).2; seen = tt }

Returned-any : {A : Type 0} (r : Result A × World) → Returned Anything r
Returned-any (ok a, w) = tt
Returned-any (raised e, w) = tt

pub Sees-update :
    {A : Type 0} (f : Shared → Result A × Shared) (w : World) → Sees w (update f) Anything
unfolding update
Sees-update f w = record { quiet = (interfere_parts w).2; seen = Returned-any _ }

call_ok :
    {A : Type 0} (f : ℕ → Result A) (n : ℕ) (base : World) (k : ℕ) (r : Result A) (w : World)
    → f n ≡ r
    → IsAt base k w
    → Returned (λ a v. IsAt base k v × (m : ℕ) × (f m ≡ ok a)) (r, w)
call_ok f n base k (ok a) w e h = (h, n, e)
call_ok f n base k (raised x) w e h = tt

pub Sees-call :
    {A : Type 0} (f : ℕ → Result A) (base : World) (k : ℕ) (w : World)
    → IsAt base k w
    → Sees w (call f) (λ a v. IsAt base k v × (m : ℕ) × (f m ≡ ok a))
unfolding call
Sees-call f base k w h = record {
  quiet = refl;
  seen =
      call_ok f w.tick base k (f w.tick) _ refl (record { shared = h.shared; pending = h.pending });
}

module _ (ports : Ports) (ctx : Context) where
  pub Sees-record_audit :
      (i : Text) (action : Action) (from to : Option TenantLifecycleState) (w : World)
      → Sees w (record_audit ports ctx i action from to) Anything
  unfolding record_audit ◌>>=◌
  Sees-record_audit i action from to w = record { quiet = refl; seen = tt }

  pub Sees-event :
      (i : Text) (action : Action) (w : World) → Sees w (event ports ctx i action) Anything
  unfolding event
  Sees-event i action w = Sees-record_audit i action none none w
