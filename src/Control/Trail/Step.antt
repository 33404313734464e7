-- ===== src/Control/Trail/Step.antt =====
-- Calls that keep the tables in agreement, whatever the other writers do in between: one rule for
-- each way to build a call, and one for each call to the store, the ledger and the ports.
use snack_portal.Common.{
  ◌≡◌, refl, inl, ℕ, ◌+◌, Bool, true, false, Option, none, some, if◌then◌else◌,
}
use snack_portal.Common.Text.{Text}
use snack_portal.Control.Records.{TenantRecord, Action, Shared}
use snack_portal.Control.World.{
  World, M, Result, ok, raised, Error, ◌>>=◌, pure, raise, raise_if, or_raise, attempt, call, note,
  Effect, gets, update, interfere, Context,
}
use snack_portal.Control.Ports.{Ports}
use snack_portal.Control.Store.{get_tenant, record_audit, event}
use snack_portal.Control.Distinctness.Ledger.{OneOwner}
use snack_portal.Control.Trail.Sound.{
  GrowsTo-trans, Extends-more, IsSafe, Knows, Knows-Grows, Knows-same, ledger-IsSound, Knows-found,
  interfere-IsSafe, interfere-Grows, event-IsSound,
}

-- What holds after a call: the tables agree, also after an exception; a result `a` comes with the
-- knowledge of the record `K a` and the fact `F a`.
abbrev pub After :
    Shared → {A : Type 0} → (A → Option TenantRecord) → (A → Type 0) → Result A × World → Type 0
After base K F (ok a, w) = IsSafe base w × Knows (K a) w.shared × F a
After base K F (raised e, w) = IsSafe base w

pub record Keeps {A : Type 0} (k : Option TenantRecord) (m : M A) (K : A → Option TenantRecord)
    (F : A → Type 0) : Type 0 where
  pub at : (base : Shared) (w : World) → IsSafe base w → Knows k w.shared → After base K F (m w)

-- The postcondition that says no more than agreement.
abbrev pub nothing : {A : Type 0} → A → Option TenantRecord
nothing a = none

abbrev pub AnyResult : {A : Type 0} → A → Type 0
AnyResult a = Unit

After-bind :
    (base : Shared) {A B : Type 0} (K : A → Option TenantRecord) (F : A → Type 0)
    (K' : B → Option TenantRecord) (F' : B → Type 0) (f : A → M B) (r : Result A) (w : World)
    → After base K F (r, w)
    → ((a : A) → F a → Keeps (K a) (f a) K' F')
    → After base K' F' (◌>>=◌ (λ v. (r, w)) f w)
unfolding ◌>>=◌
After-bind base K F K' F' f (ok a) w (safe, know, fact) kf = (kf a fact).at base w safe know
After-bind base K F K' F' f (raised e) w safe kf = safe

pub Keeps-bind :
    {A B : Type 0} {k : Option TenantRecord} {m : M A} {K : A → Option TenantRecord}
    {F : A → Type 0} {f : A → M B} {K' : B → Option TenantRecord} {F' : B → Type 0}
    → Keeps k m K F
    → ((a : A) → F a → Keeps (K a) (f a) K' F')
    → Keeps k (m >>= f) K' F'
unfolding ◌>>=◌
Keeps-bind {m = m} {K = K} {F = F} {f = f} {K' = K'} {F' = F'} km kf = record {
  at = λ base w safe know.
      let (r, w') = m w in After-bind base K F K' F' f r w' (km.at base w safe know) kf;
}

pub Keeps-pure :
    {A : Type 0} {K : A → Option TenantRecord} {F : A → Type 0} (a : A)
    → F a
    → Keeps (K a) (pure a) K F
unfolding ◌>>=◌
Keeps-pure a fact = record { at = λ base w safe know. (safe, know, fact) }

pub Keeps-pure-nothing :
    {A : Type 0} (k : Option TenantRecord) (a : A) → Keeps k (pure a) nothing AnyResult
unfolding ◌>>=◌
Keeps-pure-nothing k a = record { at = λ base w safe know. (safe, tt, tt) }

pub Keeps-raise :
    {A : Type 0} {k : Option TenantRecord} {K : A → Option TenantRecord} {F : A → Type 0}
    (e : Error)
    → Keeps k (raise e) K F
unfolding ◌>>=◌
Keeps-raise e = record { at = λ base w safe know. safe }

pub Keeps-raise_if :
    {k : Option TenantRecord} (b : Bool) (e : Error)
    → Keeps k (raise_if b e) (λ _. k) (λ _. b ≡ false)
unfolding ◌>>=◌
Keeps-raise_if true e = record { at = λ base w safe know. safe }
Keeps-raise_if false e = record { at = λ base w safe know. (safe, know, refl) }

pub Keeps-or_raise :
    (o : Option TenantRecord) (e : Error) → Keeps o (or_raise o e) some (λ rec. o ≡ some rec)
unfolding ◌>>=◌
Keeps-or_raise none e = record { at = λ base w safe know. safe }
Keeps-or_raise (some rec) e = record { at = λ base w safe know. (safe, know, refl) }

-- What is known before a call may be forgotten.
pub Keeps-forget :
    {A : Type 0} {k : Option TenantRecord} {m : M A} {K : A → Option TenantRecord} {F : A → Type 0}
    → Keeps none m K F
    → Keeps k m K F
Keeps-forget km = record { at = λ base w safe know. km.at base w safe tt }

After-weaken :
    (base : Shared) {A : Type 0} (K : A → Option TenantRecord) (F : A → Type 0)
    (r : Result A × World)
    → After base K F r
    → After base nothing AnyResult r
After-weaken base K F (ok a, w) h = (h.0, tt, tt)
After-weaken base K F (raised e, w) h = h

pub Keeps-weaken :
    {A : Type 0} {k : Option TenantRecord} {m : M A} {K : A → Option TenantRecord} {F : A → Type 0}
    → Keeps k m K F
    → Keeps k m nothing AnyResult
Keeps-weaken {m = m} {K = K} {F = F} km = record {
  at = λ base w safe know. After-weaken base K F (m w) (km.at base w safe know);
}

-- The knowledge and the fact behind an attempt, by how it ended.
abbrev pub if_ok : {A : Type 0} → (A → Option TenantRecord) → Result A → Option TenantRecord
if_ok K (ok a) = K a
if_ok K (raised e) = none

abbrev pub FactIfOk : {A : Type 0} → (A → Type 0) → Result A → Type 0
FactIfOk F (ok a) = F a
FactIfOk F (raised e) = Unit

After-attempt :
    (base : Shared) {A : Type 0} (K : A → Option TenantRecord) (F : A → Type 0) (r : Result A)
    (w : World)
    → After base K F (r, w)
    → After base (if_ok K) (FactIfOk F) (ok r, w)
unfolding ◌>>=◌
After-attempt base K F (ok a) w h = h
After-attempt base K F (raised e) w h = (h, tt, tt)

pub Keeps-attempt :
    {A : Type 0} {k : Option TenantRecord} {m : M A} {K : A → Option TenantRecord} {F : A → Type 0}
    → Keeps k m K F
    → Keeps k (attempt m) (if_ok K) (FactIfOk F)
unfolding ◌>>=◌
Keeps-attempt {m = m} {K = K} {F = F} km = record {
  at =
      λ base w safe know. let (r, w') = m w in After-attempt base K F r w' (km.at base w safe know);
}

-- A call that leaves the program does not touch the tables, whether it answers or raises.
After-call :
    (base : Shared) {A : Type 0} (k : Option TenantRecord) (r : Result A) (w : World)
    → IsSafe base w
    → Knows k w.shared
    → After base (λ _. k) AnyResult (r, w)
After-call base k (ok a) w safe know = (safe, know, tt)
After-call base k (raised e) w safe know = safe

pub Keeps-call :
    {A : Type 0} {k : Option TenantRecord} (f : ℕ → Result A) → Keeps k (call f) (λ _. k) AnyResult
unfolding ◌>>=◌
Keeps-call {k = k} f = record {
  at = λ base w safe know.
      After-call base k (f w.tick) (record w { tick = w.tick + 1 })
        (record {
          sound = safe.sound;
          grows = safe.grows;
          extends = safe.extends;
          lawful = safe.lawful;
        })
        know;
}

pub Keeps-note : {k : Option TenantRecord} (e : Effect) → Keeps k (note e) (λ _. k) AnyResult
unfolding ◌>>=◌
Keeps-note e = record {
  at = λ base w safe know. (
    record { sound = safe.sound; grows = safe.grows; extends = safe.extends; lawful = safe.lawful },
    know,
    tt,
  );
}

-- A read of the tables.
pub Keeps-gets :
    {A : Type 0} {k : Option TenantRecord} (f : Shared → A) → Keeps k (gets f) (λ _. k) AnyResult
unfolding gets
Keeps-gets {k = k} f = record {
  at = λ base w safe know. (
    interfere-IsSafe base w safe,
    Knows-Grows k w.shared (interfere w).shared (interfere-Grows base w safe) know,
    tt,
  );
}

-- Reading a tenant: the record is known, and stands under its own id.
pub Keeps-get_tenant :
    {k : Option TenantRecord} (i : Text)
    → Keeps k (get_tenant i) (λ o. o) (λ o. (rec : TenantRecord) → o ≡ some rec → rec.tenant_id ≡ i)
unfolding get_tenant gets
Keeps-get_tenant i = record {
  at = λ base w safe know.
      let safe' = interfere-IsSafe base w safe in
      (
        safe',
        Knows-found i _ (interfere w).shared safe'.sound refl,
        λ rec found. safe'.sound.keyed i rec found,
      );
}

pub Keeps-event :
    {k : Option TenantRecord} (ports : Ports) (ctx : Context) (i : Text) (a : Action)
    → Keeps k (event ports ctx i a) (λ _. k) AnyResult
unfolding event record_audit ◌>>=◌
Keeps-event {k = k} ports ctx i a = record {
  at = λ base w safe know. (
    record {
      sound = event-IsSound w.shared _ refl safe.sound;
      grows = safe.grows;
      extends = Extends-more base.audit w.shared.audit _ safe.extends;
      lawful = safe.lawful;
    },
    Knows-same k w.shared (event ports ctx i a w).1.shared refl know,
    tt,
  );
}

pub Keeps-if :
    {A : Type 0} {k : Option TenantRecord} {m n : M A} {K : A → Option TenantRecord}
    {F : A → Type 0} (b : Bool)
    → (b ≡ true → Keeps k m K F)
    → (b ≡ false → Keeps k n K F)
    → Keeps k (if b then m else n) K F
Keeps-if true km kn = km refl
Keeps-if false km kn = kn refl

-- The step after which nothing more is known.
pub Keeps-then :
    {A B : Type 0} {k : Option TenantRecord} {m : M A} {f : A → M B}
    → Keeps k m (λ _. k) AnyResult
    → ((a : A) → Keeps k (f a) nothing AnyResult)
    → Keeps k (m >>= f) nothing AnyResult
Keeps-then km kf = Keeps-bind km (λ a _. kf a)

-- A call that keeps what is known also when it raises.
pub record KeepsAll {A : Type 0} (k : Option TenantRecord) (m : M A) : Type 0 where
  pub at_all :
      (base : Shared) (w : World)
      → IsSafe base w
      → Knows k w.shared
      → IsSafe base (m w).1 × Knows k (m w).1.shared

pub After-nothing :
    (base : Shared) {A : Type 0} (r : Result A × World)
    → After base nothing AnyResult r
    → IsSafe base r.1
After-nothing base (ok a, w) h = h.0
After-nothing base (raised e, w) h = h

pub Keeps-attempt_all :
    {A : Type 0} {k : Option TenantRecord} {m : M A}
    → KeepsAll k m
    → Keeps k (attempt m) (λ _. k) AnyResult
unfolding ◌>>=◌
Keeps-attempt_all km = record {
  at = λ base w safe know. let (s, k') = km.at_all base w safe know in (s, k', tt);
}

After-all :
    (base : Shared) {A : Type 0} (k : Option TenantRecord) (r : Result A × World)
    → IsSafe base r.1
    → Knows k r.1.shared
    → After base (λ _. k) AnyResult r
After-all base k (ok a, w) safe know = (safe, know, tt)
After-all base k (raised e, w) safe know = safe

pub Keeps_of_all :
    {A : Type 0} {k : Option TenantRecord} {m : M A} → KeepsAll k m → Keeps k m (λ _. k) AnyResult
Keeps_of_all {k = k} {m = m} km = record {
  at = λ base w safe know. let (s, k') = km.at_all base w safe know in After-all base k (m w) s k';
}

-- A write of the ledger.
pub Keeps-update_ledger :
    {A : Type 0} {k : Option TenantRecord} (f : Shared → Result A × Shared)
    → ((s : Shared) → (f s).1.tenants ≡ s.tenants)
    → ((s : Shared) → (f s).1.audit ≡ s.audit)
    → ((s : Shared) → OneOwner s.ledger → OneOwner (f s).1.ledger)
    → KeepsAll k (update f)
unfolding update
Keeps-update_ledger {k = k} f same_tenants same_audit owned = record {
  at_all = λ base w safe know.
      let w' = interfere w in
      let safe' = interfere-IsSafe base w safe in
      let s' = (f w'.shared).1 in
      (
        record {
          sound =
              ledger-IsSound w'.shared s' (same_tenants w'.shared) (same_audit w'.shared)
                (owned w'.shared safe'.sound.owned) safe'.sound;
          grows =
              GrowsTo-trans base.tenants w'.shared.tenants s'.tenants safe'.grows
                (λ i c found. (c, rw (same_tenants w'.shared) found, inl refl));
          extends = rw (same_audit w'.shared) safe'.extends;
          lawful = safe'.lawful;
        },
        Knows-same k w'.shared s' (same_tenants w'.shared)
            (Knows-Grows k w.shared w'.shared (interfere-Grows base w safe) know),
      );
}

-- An attempt of which nothing is known.
pub Keeps-attempt-nothing :
    {A : Type 0} {m : M A}
    → Keeps none m nothing AnyResult
    → Keeps none (attempt m) (λ _. none) AnyResult
Keeps-attempt-nothing {m = m} km =
    Keeps-attempt_all (record {
      at_all = λ base w safe know. (After-nothing base (m w) (km.at base w safe tt), tt);
    })
