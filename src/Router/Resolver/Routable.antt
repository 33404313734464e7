-- ===== src/Router/Resolver/Routable.antt =====
-- Which tenants backend/database_router/resolver.py lets through.
use snack_portal.Common.{
  ◌+◌, ◌∙◌, subst, sym, ap, ℕ, ◌≤◌, ◌<◌, ◌≡◌, ◌≢◌, ◌↔◌, ◌⊎◌, inl, inr, refl, Bool, true, Option,
  none, some, List, [], ◌∷◌, length, any, Option-cases, arith,
}
use snack_portal.Common.Text.{Text, text, text_eq, text_eq_iff}
use snack_portal.Common.Dict.{insert, Dict, erase, lookup}
use snack_portal.Router.Cache.{get, unexpired}
use snack_portal.Router.Cache.Freshness.{put_room}
use snack_portal.Router.Resolver.{
  TenantRoutingView, Read, read_raises, read_answers, Resolved, resolved, crashed, Views,
  denial_for_state, gate_view, store_view, read_view, cached_or_read, resolve,
}

-- A view of a ready tenant, at a schema version that the router supports.
pub record IsRoutable (supported : List Text) (view : TenantRoutingView) : Type 0 where
  pub in_ready_state : view.lifecycle_state ≡ text "Ready"
  pub flagged : view.ready ≡ true
  pub at_version : any (text_eq view.expected_schema_version) supported ≡ true

denial_for_state-none :
    (state : Text) (ready : Bool)
    → (denial_for_state state ready ≡ none) ↔ ((state ≡ text "Ready") × (ready ≡ true))
unfolding denial_for_state
denial_for_state-none state ready = (
  λ h. (ground (arith, text_eq_iff state (text "Ready")), ground arith),
  λ h. ground (arith, text_eq_iff state (text "Ready"), h.0, h.1),
)

resolved_inj : (v w : TenantRoutingView) → resolved v ≡ resolved w → v ≡ w
resolved_inj v w h = cc

gated :
    (supported : List Text) (v : TenantRoutingView)
    → IsRoutable supported v
    → gate_view supported v ≡ resolved v
unfolding gate_view
gated supported v r =
    let open_gate =
      (denial_for_state-none v.lifecycle_state v.ready).1 (r.in_ready_state, r.flagged) in
    let version = r.at_version in rw (open_gate, gate_view) (rw version refl)

ungated :
    (supported : List Text) (v w : TenantRoutingView)
    → gate_view supported v ≡ resolved w
    → (v ≡ w)
      × (denial_for_state v.lifecycle_state v.ready ≡ none)
      × (any (text_eq v.expected_schema_version) supported ≡ true)
unfolding gate_view
ungated supported v w h = ground arith

gate_view-IsRoutable :
    (supported : List Text) (v w : TenantRoutingView)
    → (gate_view supported v ≡ resolved w) ↔ ((v ≡ w) × IsRoutable supported v)
gate_view-IsRoutable supported v w = (
  λ h.
      let (same, open_gate, version) = ungated supported v w h in
      let (ready, flag) = (denial_for_state-none v.lifecycle_state v.ready).0 open_gate in
      (same, record { in_ready_state = ready; flagged = flag; at_version = version }),
  λ h. gated supported v h.1 ∙ ap resolved h.0,
)

length-erase : {V : Type 0} (k : Text) (d : Dict V) → length (erase k d) ≤ length d
unfolding erase
length-erase k [] = omega arith
length-erase k ((j, v) ∷ d) = ground (arith, length-erase k d)

length-get : (now : ℕ) (k : Text) (views : Views) → length (get now k views).1 ≤ length views
unfolding get unexpired
length-get now k views = elim (Option-cases (lookup k views)) [
  | inl e ↦ rw e (omega arith)
  | inr (entry, e) ↦ rw e (ground (arith, length-erase k views))
]

-- Where a resolution takes its view from: the unexpired entry of the cache, or the read port.
abbrev pub IsSeen : ℕ → (Text → Read) → Text → Views → TenantRoutingView → Type 0
IsSeen now read tenant_id views view =
    ((get now tenant_id views).0 ≡ some view)
    ⊎ (((get now tenant_id views).0 ≡ none) × (read tenant_id ≡ read_answers (some view)))

module _ (max ttl : ℕ) (supported : List Text) (now : ℕ) where
  -- What a resolution from the cache's answer promises.
  abbrev Resolves : (Text → Read) → Text → Option TenantRoutingView → Resolved × Views → Type 0
  Resolves read tenant_id cached result =
      ((view : TenantRoutingView)
        → (result.0 ≡ resolved view) ↔ (
            ((cached ≡ some view) ⊎ ((cached ≡ none) × (read tenant_id ≡ read_answers (some view))))
            × IsRoutable supported view))
      × (result.0 ≢ crashed)
      × (length result.1 ≤ max)

  gate_view_ends : (view : TenantRoutingView) → gate_view supported view ≢ crashed
  unfolding gate_view
  gate_view_ends view h = ground arith

  -- A view that is gated after it was found.
  found :
      (read : Text → Read) (tenant_id : Text) (cached : Option TenantRoutingView)
      (view w : TenantRoutingView)
      → ((cached ≡ some view) ⊎ ((cached ≡ none) × (read tenant_id ≡ read_answers (some view))))
      → ((cached ≡ some w) ⊎ ((cached ≡ none) × (read tenant_id ≡ read_answers (some w))))
      → view ≡ w
  found read tenant_id cached view w (inl a) (inl b) = cc
  found read tenant_id cached view w (inl a) (inr (b, _)) = cc
  found read tenant_id cached view w (inr (a, _)) (inl b) = cc
  found read tenant_id cached view w (inr (_, a)) (inr (_, b)) = cc

  gated-Resolves :
      (read : Text → Read) (tenant_id : Text) (cached : Option TenantRoutingView)
      (view : TenantRoutingView) (views : Views)
      → ((cached ≡ some view) ⊎ ((cached ≡ none) × (read tenant_id ≡ read_answers (some view))))
      → length views ≤ max
      → Resolves read tenant_id cached (gate_view supported view, views)
  gated-Resolves read tenant_id cached view views seen bound = (
    λ w. (
      λ h.
          let (same, r) = (gate_view-IsRoutable supported view w).0 h in
          (
            subst
                (λ v.
                  (cached ≡ some v) ⊎ ((cached ≡ none) × (read tenant_id ≡ read_answers (some v))))
                same seen,
            subst (IsRoutable supported) same r,
          ),
      λ h.
          let same = found read tenant_id cached view w seen h.0 in
          (gate_view-IsRoutable supported view w).1
            (same, subst (IsRoutable supported) (sym same) h.1),
    ),
    gate_view_ends view,
    bound,
  )

  store_view-Resolves :
      (read : Text → Read) (tenant_id : Text) (view : TenantRoutingView) (views : Views)
      → 0 < max
      → length views ≤ max
      → read tenant_id ≡ read_answers (some view)
      → Resolves read tenant_id none (store_view max ttl supported now tenant_id view views)
  unfolding store_view
  store_view-Resolves read tenant_id view views positive bound e =
      let (kept, put_ok, held) = put_room max ttl now tenant_id view views positive bound in
      let stored : Views = insert tenant_id (now + ttl, view) kept in
      subst
        (λ (o : Option Views).
          Resolves read tenant_id none
            (elim o [ none ↦ (crashed, views) | some s ↦ (gate_view supported view, s) ]))
        (sym put_ok) (gated-Resolves read tenant_id none view stored (inr (refl, e)) held)

  unseen :
      (read : Text → Read) (tenant_id : Text) (answer : Read) (w : TenantRoutingView)
      → read tenant_id ≡ answer
      → answer ≢ read_answers (some w)
      → ¬ (
          (◌≡◌ {A = Option TenantRoutingView} none (some w))
          ⊎ ((◌≡◌ {A = Option TenantRoutingView} none none)
              × (read tenant_id ≡ read_answers (some w))))
  unseen read tenant_id answer w e n (inl a) = cc
  unseen read tenant_id answer w e n (inr (_, a)) = n (sym e ∙ a)

  -- A port that answers no view lets nothing through.
  unread :
      (read : Text → Read) (tenant_id : Text) (answer : Read) (views : Views)
      → 0 < max
      → length views ≤ max
      → read tenant_id ≡ answer
      → Resolves read tenant_id none (read_view max ttl supported now answer tenant_id views)
  unfolding read_view
  unread read tenant_id read_raises views positive bound e = (
    λ w. (λ h. absurd (cc), λ h. absurd (unseen read tenant_id read_raises w e (λ x. cc) h.0)),
    λ h. cc,
    bound,
  )
  unread read tenant_id (read_answers none) views positive bound e = (
    λ w. (
      λ h. absurd (cc),
      λ h. absurd (unseen read tenant_id (read_answers none) w e (λ x. cc) h.0),
    ),
    λ h. cc,
    bound,
  )
  unread read tenant_id (read_answers (some view)) views positive bound e =
      store_view-Resolves read tenant_id view views positive bound e

  cached_or_read-Resolves :
      (read : Text → Read) (tenant_id : Text) (cached : Option TenantRoutingView) (views : Views)
      → 0 < max
      → length views ≤ max
      → Resolves read tenant_id cached
          (cached_or_read max ttl supported now read tenant_id (cached, views))
  unfolding cached_or_read
  cached_or_read-Resolves read tenant_id (some view) views positive bound =
      gated-Resolves read tenant_id (some view) view views (inl refl) bound
  cached_or_read-Resolves read tenant_id none views positive bound =
      unread read tenant_id (read tenant_id) views positive bound refl

  -- With a positive bound on the cache that is kept so far, a resolution answers a view exactly when
  -- the view is the tenant's unexpired entry, or the read port's answer where there is none, and is of
  -- a ready tenant at a supported schema version; no exception escapes it, and the bound is kept.
  pub resolve-IsRoutable :
      (read : Text → Read) (tenant_id : Text) (views : Views)
      → 0 < max
      → length views ≤ max
      → ((view : TenantRoutingView)
          → ((resolve max ttl supported now read tenant_id views).0 ≡ resolved view)
            ↔ (IsSeen now read tenant_id views view × IsRoutable supported view))
        × ((resolve max ttl supported now read tenant_id views).0 ≢ crashed)
        × (length (resolve max ttl supported now read tenant_id views).1 ≤ max)
  unfolding resolve
  resolve-IsRoutable read tenant_id views positive bound =
      cached_or_read-Resolves read tenant_id (get now tenant_id views).0 (get now tenant_id views).1
        positive (omega (arith, length-get now tenant_id views))
