-- ===== src/Router/Tests.antt =====
-- Concrete runs of the connection manager, and each theorem at one.
use snack_portal.Common.{
  ℕ, ◌+◌, ◌≤◌, ◌≡◌, refl, true, none, some, List, [], ◌∷◌, All, length, ltb, if◌then◌else◌, arith,
}
use snack_portal.Common.Dict.{Dict}
use snack_portal.Router.Cache.{put, get, invalidate_entry}
use snack_portal.Router.Cache.History.{CacheCall, run_cache, younger, get-run_cache-put}
use snack_portal.Common.Text.{Text, text, text_eq}
use snack_portal.Router.Pool.{
  Connection, Manager, mints, Env, acquire, release, discard, invalidate_version,
}
use snack_portal.Router.Pool.Binding.{IsIsolated}
use snack_portal.Router.Pool.Isolation.{Grants, acquire-Grants, returned-IsIsolated}

abbrev env : Env
env = record { now = 10; is_alive = λ c. true; resets = λ c. true }

abbrev connection : ℕ → Connection
connection n = record { object = n; tenant_id = text "acme"; association_version = text "1" }

-- One pool with an idle connection and one in use.
abbrev busy : Manager
busy = record {
  pools =
      record {
        tenant_id = text "acme";
        association_version = text "1";
        max_size = 5;
        idle = record { conn = connection 1; last_used = 9 } ∷ [];
        in_use = connection 2 ∷ [];
      }
      ∷ [];
  closed = [];
}

busy-IsIsolated : IsIsolated busy
busy-IsIsolated = (
  record {
    idle_bound = ((refl, refl), tt);
    used_bound = ((refl, refl), tt);
    bounded = omega arith;
  },
  tt,
)

acquire-Grants_example :
    Grants
      (text "acme")
      (text "1")
      (acquire 5 60 env (text "acme") (text "1") (mints (connection 3)) busy)
acquire-Grants_example =
    acquire-Grants 5 60 env (text "acme") (text "1") (mints (connection 3)) busy busy-IsIsolated

returned-IsIsolated_example :
    IsIsolated (release 5 60 env (connection 2) busy)
    × IsIsolated (discard (connection 2) busy)
    × IsIsolated (invalidate_version (text "acme") (text "2") busy)
    × All
        (λ p. p.tenant_id ≡ text "acme" → p.association_version ≡ text "2")
        (invalidate_version (text "acme") (text "2") busy).pools
returned-IsIsolated_example =
    returned-IsIsolated 5 60 env (connection 2) (text "acme") (text "2") busy busy-IsIsolated

-- Two calls for another tenant.
abbrev other_calls : List (CacheCall Text)
other_calls =
    CacheCall.put_at 101 (text "third") (text "new") ∷ CacheCall.got_at 120 (text "other") ∷ []

abbrev entries : Dict (ℕ × Text)
entries = (text "other", (90, text "old")) ∷ []

get-run_cache-put_example :
    (d1 : Dict (ℕ × Text)) × (d2 : Dict (ℕ × Text)) × (d3 : Dict (ℕ × Text)) × (put 2 15 100
        (text "acme")
        (text "view")
        entries
      ≡ some d1)
    × (run_cache 2 15 other_calls d1 ≡ some d2)
    × (length d2 ≤ 2)
    × ((later : ℕ)
        → (get later (text "acme") d2).0
          ≡ (if ltb (100 + 15) later then none else some (text "view")))
    × (run_cache 2 15 other_calls (invalidate_entry (text "acme") d1) ≡ some d3)
    × (length d3 ≤ 2)
    × ((later : ℕ) → (get later (text "acme") d3).0 ≡ none)
unfolding younger text_eq
get-run_cache-put_example =
    get-run_cache-put 2 15 100 (text "acme") (text "view") entries other_calls (omega arith)
      (omega arith) (refl, (refl, tt))
