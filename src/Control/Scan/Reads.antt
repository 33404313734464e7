-- ===== src/Control/Scan/Reads.antt =====
-- The orphan scan of backend/control_plane/recovery.py only reads.
use snack_portal.Common.{
  ℕ, zero, suc, ◌≡◌, refl, ◌∙◌, Bool, true, false, Option, none, some, List, [], ◌∷◌, ◌++◌,
  if◌then◌else◌, any, map,
}
use snack_portal.Common.Text.{Text, text_eq}
use snack_portal.Common.Dict.{Dict, erase}
use snack_portal.Control.Records.{DistinctnessEvidence, Shared}
use snack_portal.Control.World.{
  World, M, Result, ok, raised, Error, ◌>>=◌, pure, or_raise, call, gets,
}
use snack_portal.Control.World.Sees.{IsAt, moment, start-IsAt, interfere-IsAt, interfere_parts}
use snack_portal.Control.Ports.{Ports}
use snack_portal.Control.Store.{get_tenant}
use snack_portal.Control.Distinctness.{evidence_excluding}
use snack_portal.Control.Provisioning.{tenant_database_name}
use snack_portal.Control.Scan.{
  record_of, named_tenant, classify_database, classify_all, sweep, sorted_unique, sort_rows,
  scan_for_orphans,
}

-- From a moment of a run, returning or raising, it ends in a later one, with no call of an operator.
pub record IsReadOnly {A : Type 0} (m : M A) : Type 0 where
  pub at :
      (base : World) (n : ℕ) (w : World)
      → IsAt base n w
      → (k : ℕ) × IsAt base k (m w).1 × ((m w).1.effects ≡ w.effects)

goes_on :
    {A B : Type 0} (f : A → M B) (base : World) (k : ℕ) (w : World) (r : Result A × World)
    → IsAt base k r.1
    → r.1.effects ≡ w.effects
    → ((a : A) → IsReadOnly (f a))
    → (j : ℕ) × IsAt base j (◌>>=◌ (λ _. r) f w).1 × ((◌>>=◌ (λ _. r) f w).1.effects ≡ w.effects)
unfolding ◌>>=◌
goes_on f base k w (ok a, v) here same kf =
    let (j, there, e) = (kf a).at base k v here in (j, there, e ∙ same)
goes_on f base k w (raised x, v) here same kf = (k, here, same)

bind-IsReadOnly :
    {A B : Type 0} {m : M A} {f : A → M B}
    → IsReadOnly m
    → ((a : A) → IsReadOnly (f a))
    → IsReadOnly (m >>= f)
unfolding ◌>>=◌
bind-IsReadOnly {m = m} {f = f} km kf = record {
  at = λ base n w here.
      let (k, there, same) = km.at base n w here in goes_on f base k w (m w) there same kf;
}

pure-IsReadOnly : {A : Type 0} (a : A) → IsReadOnly (pure a)
unfolding pure
pure-IsReadOnly a = record { at = λ base n w here. (n, here, refl) }

or_raise-IsReadOnly : {A : Type 0} (o : Option A) (e : Error) → IsReadOnly (or_raise o e)
unfolding or_raise
or_raise-IsReadOnly none e = record { at = λ base n w here. (n, here, refl) }
or_raise-IsReadOnly (some a) e = record { at = λ base n w here. (n, here, refl) }

call-IsReadOnly : {A : Type 0} (f : ℕ → Result A) → IsReadOnly (call f)
unfolding call
call-IsReadOnly f = record {
  at = λ base n w here. (n, record { shared = here.shared; pending = here.pending }, refl);
}

gets-IsReadOnly : {A : Type 0} (f : Shared → A) → IsReadOnly (gets f)
unfolding gets
gets-IsReadOnly f = record {
  at = λ base n w here. (suc n, interfere-IsAt base n w here, (interfere_parts w).2);
}

record_of-IsReadOnly : (o : Option Text) → IsReadOnly (record_of o)
unfolding record_of get_tenant
record_of-IsReadOnly none = pure-IsReadOnly none
record_of-IsReadOnly (some i) = gets-IsReadOnly _

if-IsReadOnly :
    {A : Type 0} {m n : M A} (b : Bool)
    → IsReadOnly m
    → IsReadOnly n
    → IsReadOnly (if b then m else n)
if-IsReadOnly true km kn = km
if-IsReadOnly false km kn = kn

module _ (ports : Ports) (supported : List Text) where
  classify_all-IsReadOnly :
      (control_name : Text) (d : Dict DistinctnessEvidence) (names : List Text)
      → IsReadOnly (classify_all ports supported control_name d names)
  unfolding classify_all classify_database
  classify_all-IsReadOnly control_name d [] = pure-IsReadOnly []
  classify_all-IsReadOnly control_name d (name ∷ names) =
      bind-IsReadOnly
        (bind-IsReadOnly (record_of-IsReadOnly (named_tenant name))
          λ rec. bind-IsReadOnly (call-IsReadOnly _) λ inspection. pure-IsReadOnly _)
        λ e. bind-IsReadOnly (classify_all-IsReadOnly control_name d names) λ es. pure-IsReadOnly _

  sweep-IsReadOnly :
      (control_name : Text) (inventory ids : List Text)
      → IsReadOnly (sweep ports supported control_name inventory ids)
  unfolding sweep get_tenant
  sweep-IsReadOnly control_name inventory [] = pure-IsReadOnly []
  sweep-IsReadOnly control_name inventory (i ∷ ids) =
      if-IsReadOnly (any (text_eq (tenant_database_name i)) inventory)
        (sweep-IsReadOnly control_name inventory ids)
        (bind-IsReadOnly (gets-IsReadOnly _) λ rec.
          bind-IsReadOnly (sweep-IsReadOnly control_name inventory ids) λ es. pure-IsReadOnly _)

  -- The orphan scan, whether it returns a report or raises, leaves the shared tables as the commits of
  -- other writers alone make them, and calls no operator.
  pub scan_for_orphans_read_only :
      (w : World)
      → (k : ℕ) × ((scan_for_orphans ports supported w).1.shared ≡ (moment k w).shared)
        × ((scan_for_orphans ports supported w).1.effects ≡ w.effects)
  unfolding scan_for_orphans evidence_excluding
  scan_for_orphans_read_only w =
      let (k, there, same) =
        (bind-IsReadOnly (call-IsReadOnly ports.list_candidate_databases) λ listed.
            bind-IsReadOnly (or_raise-IsReadOnly listed Error.inventory_unavailable) λ names.
              bind-IsReadOnly (call-IsReadOnly ports.control_database_name) λ asked.
                bind-IsReadOnly (or_raise-IsReadOnly asked Error.control_unavailable)
                  λ control_name. bind-IsReadOnly (gets-IsReadOnly (λ s. erase [] s.ledger)) λ d.
                    bind-IsReadOnly (classify_all-IsReadOnly control_name d (sorted_unique names))
                      λ found.
                        bind-IsReadOnly (gets-IsReadOnly (λ s. map (λ e. e.0) s.tenants)) λ ids.
                          bind-IsReadOnly
                            (sweep-IsReadOnly control_name (sorted_unique names)
                              (sorted_unique ids))
                            λ absent. pure-IsReadOnly (sort_rows (found ++ absent))).at
          w zero w (start-IsAt w) in
      (k, there.shared, same)
