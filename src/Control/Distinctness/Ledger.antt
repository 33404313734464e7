-- ===== src/Control/Distinctness/Ledger.antt =====
-- The uniqueness promise of the evidence ledger (`InMemoryDistinctnessLedger` of
-- backend/control_plane/distinctness.py): one physical database has one owner.
use snack_portal.Common.{◌≡◌, refl, Bool, true, false, some, [], ◌∷◌, arith}
use snack_portal.Common.Text.{Text, text_eq_iff}
use snack_portal.Common.Dict.{Dict, lookup, insert, erase, lookup-insert, lookup-erase}
use snack_portal.Control.Records.{DistinctnessEvidence, Shared}
use snack_portal.Control.Distinctness.{fingerprint, fingerprint_taken, record_if_free}

-- No two tenants own evidence with one physical fingerprint.
abbrev pub OneOwner : Dict DistinctnessEvidence → Type 0
OneOwner d =
    (i j : Text) (a b : DistinctnessEvidence)
    → lookup i d ≡ some a
    → lookup j d ≡ some b
    → fingerprint a ≡ fingerprint b
    → i ≡ j

-- The loop reports every other owner of the fingerprint.
fingerprint_taken_complete :
    (i : Text) (print : Text) (d : Dict DistinctnessEvidence) (j : Text) (b : DistinctnessEvidence)
    → fingerprint_taken i print d ≡ false
    → lookup j d ≡ some b
    → fingerprint b ≡ print
    → j ≡ i
unfolding fingerprint_taken lookup
fingerprint_taken_complete i print [] j b free found same = cc
fingerprint_taken_complete i print ((k, e) ∷ d) j b free found same = ground (
  arith,
  text_eq_iff k j,
  text_eq_iff k i,
  text_eq_iff (fingerprint e) print,
  fingerprint_taken_complete i print d j b,
)

insert-OneOwner :
    (i : Text) (e : DistinctnessEvidence) (d : Dict DistinctnessEvidence)
    → fingerprint_taken i (fingerprint e) d ≡ false
    → OneOwner d
    → OneOwner (insert i e d)
insert-OneOwner i e d free unique j k a b fj fk same = ground (
  arith,
  lookup-insert i j e d,
  lookup-insert i k e d,
  text_eq_iff i j,
  text_eq_iff i k,
  fingerprint_taken_complete i (fingerprint e) d j a free,
  fingerprint_taken_complete i (fingerprint e) d k b free,
  unique j k a b,
)

pub record_if_free-OneOwner :
    (i : Text) (e : DistinctnessEvidence) (s : Shared)
    → OneOwner s.ledger
    → OneOwner (record_if_free i e s).1.ledger
unfolding record_if_free
record_if_free-OneOwner i e s unique = go (fingerprint_taken i (fingerprint e) s.ledger) refl
  where
    go :
        (b : Bool)
        → fingerprint_taken i (fingerprint e) s.ledger ≡ b
        → OneOwner (record_if_free i e s).1.ledger
    go true taken = rw (record_if_free, taken) unique
    go false free = rw (record_if_free, free) (insert-OneOwner i e s.ledger free unique)

pub erase-OneOwner : (i : Text) (d : Dict DistinctnessEvidence) → OneOwner d → OneOwner (erase i d)
erase-OneOwner i d unique j k a b fj fk same =
    ground (arith, lookup-erase i j d, lookup-erase i k d, unique j k a b)
