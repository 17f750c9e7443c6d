-- ===== src/Authorization/Enforcement/Granting.antt =====
-- What an authorised request has passed: the checks of `authorise`, and its audit.
use mathlib.Core.Path.{subst}
use gldaassurance.Base.{
  Option-cases, Memᴰ, sym, inr, String, ◌↔◌, inl, refl, ap, none-ne-some, ◌≡◌, some_inj, some,
  Bool-cases, ==_iff, ◌∙◌, ◌==◌, contains_iff, contains, string_eq,
}
use gldaassurance.Audit.{AuditReason}
use gldaassurance.Identity.Sessions.{
  Validated, SessionStore, SessionRecord, validate, valid, rejected, slide,
}
use gldaassurance.Identity.Sessions.Acceptance.{IsAccepted, validate-valid_iff}
use gldaassurance.Access.Policy.{
  AuthorisedEntitySet, may, decided, deny, Answer, type_error, resolve_scope, grant,
}
use gldaassurance.Access.Policy.Laws.{may-grant_iff, names_of}
use gldaassurance.Authorization.Enforcement.{
  assess, RequestContext, refuse, AuthoriseRequest, assess_entity, assess_capability, throws,
  admits,
}

-- The checks of a request at a session store: the session is accepted and is the caller's, the role
-- of the caller has the capability, and an entity that the request names is in the resolved set.
pub record PassesChecks (ctx : RequestContext) (request : AuthoriseRequest) (store : SessionStore)
    : Type 0 where
  pub session : SessionRecord
  pub session_accepted : IsAccepted store ctx.auth.session_id ctx.clock_now session
  pub same_actor : session.actor_id ≡ ctx.auth.actor_id
  pub capable : Memᴰ request.declaration.capability (names_of ctx.auth.role)
  pub in_set :
      (id : String)
      → request.wanted_entity ≡ some id
      → Memᴰ id (resolve_scope ctx.placements ctx.auth).project_ids

admits_inj : {s t : AuthorisedEntitySet} → admits s ≡ admits t → s ≡ t
admits_inj h = cc

refuse-ne_admits : {r : AuditReason} {s : AuthorisedEntitySet} → refuse r ≡ admits s → ⊥
refuse-ne_admits h = cc

throws-ne_admits : {s : AuthorisedEntitySet} → throws ≡ admits s → ⊥
throws-ne_admits h = cc

assess_entity-admits :
    (request : AuthoriseRequest) (set out : AuthorisedEntitySet)
    → assess_entity request set ≡ admits out
    → (out ≡ set) × ((id : String) → request.wanted_entity ≡ some id → Memᴰ id set.project_ids)
assess_entity-admits request set out h = elim (Option-cases request.wanted_entity) [
  | inl missing ↦
      (sym (admits_inj (rw missing at h)), λ id e. absurd (none-ne-some id (sym missing ∙ e)))
  | inr (named, found) ↦ elim (Bool-cases (contains set.project_ids named)) [
    | inl inside ↦ (
      sym (admits_inj (rw (found, inside) at h)),
      λ id e.
          subst (λ n. Memᴰ n set.project_ids) (some_inj named id (sym found ∙ e))
            ((contains_iff set.project_ids named).0 inside),
    )
    | inr outside ↦ absurd (refuse-ne_admits (rw (found, outside) at h))
  ]
]

assess_entity-inside :
    (request : AuthoriseRequest) (set : AuthorisedEntitySet)
    → ((id : String) → request.wanted_entity ≡ some id → Memᴰ id set.project_ids)
    → assess_entity request set ≡ admits set
assess_entity-inside request set inside = elim (Option-cases request.wanted_entity) [
  | inl missing ↦ rw missing
  | inr (named, found) ↦ rw (found, (contains_iff set.project_ids named).1 (inside named found))
]

assess_capability-admits :
    (ctx : RequestContext) (request : AuthoriseRequest) (a : Answer) (out : AuthorisedEntitySet)
    → assess_capability ctx request a ≡ admits out
    → (a ≡ decided grant)
      × (assess_entity request (resolve_scope ctx.placements ctx.auth) ≡ admits out)
assess_capability-admits ctx request type_error out h = absurd (throws-ne_admits h)
assess_capability-admits ctx request (decided (deny reason)) out h = absurd (refuse-ne_admits h)
assess_capability-admits ctx request (decided grant) out h = (refl, h)

assess-admits :
    (ctx : RequestContext) (request : AuthoriseRequest) (v : Validated) (out : AuthorisedEntitySet)
    → assess ctx request v ≡ admits out
    → (session : SessionRecord) × (v ≡ valid session)
      × (session.actor_id ≡ ctx.auth.actor_id)
      × (assess_capability ctx request (may ctx.auth request.declaration.capability) ≡ admits out)
assess-admits ctx request (rejected why) out h = absurd (refuse-ne_admits h)
assess-admits ctx request (valid session) out h =
    elim (Bool-cases (session.actor_id == ctx.auth.actor_id)) [
      | inl same ↦ (session, refl, (==_iff _ _).0 same, rw same at h)
      | inr differs ↦ absurd (refuse-ne_admits (rw differs at h))
    ]

-- The checks reach their end with a set exactly where the request passes them, with the set that
-- the caller's scope resolves to.
pub assess-admits_iff :
    (ctx : RequestContext) (request : AuthoriseRequest) (store : SessionStore)
    (out : AuthorisedEntitySet)
    → (assess ctx request (validate store ctx.auth.session_id ctx.clock_now).1 ≡ admits out)
      ↔ (PassesChecks ctx request store × (out ≡ resolve_scope ctx.placements ctx.auth))
assess-admits_iff ctx request store out = (to, from)
  where
    to :
        assess ctx request (validate store ctx.auth.session_id ctx.clock_now).1 ≡ admits out
        → PassesChecks ctx request store × (out ≡ resolve_scope ctx.placements ctx.auth)
    to h =
        let (slid, checked, same, rest) =
          assess-admits ctx request (validate store ctx.auth.session_id ctx.clock_now).1 out h in
        let (session, ok, e) =
          (validate-valid_iff store ctx.auth.session_id ctx.clock_now slid).0 checked in
        let (may_grant, entity) = assess_capability-admits ctx request _ out rest in
        let (set, inside) = assess_entity-admits request _ out entity in
        (
          record {
            session = session;
            session_accepted = ok;
            same_actor = ap (λ s. s.actor_id) (sym e) ∙ same;
            capable = (may-grant_iff ctx.auth request.declaration.capability).0 may_grant;
            in_set = inside;
          },
          set,
        )

    from :
        PassesChecks ctx request store × (out ≡ resolve_scope ctx.placements ctx.auth)
        → assess ctx request (validate store ctx.auth.session_id ctx.clock_now).1 ≡ admits out
    from (p, e) =
        let checked =
          (validate-valid_iff store ctx.auth.session_id ctx.clock_now
              (slide store p.session ctx.clock_now)).1
            (p.session, p.session_accepted, refl) in
        rw
          (
            checked,
            (==_iff p.session.actor_id ctx.auth.actor_id).1 p.same_actor,
            (may-grant_iff ctx.auth request.declaration.capability).1 p.capable,
          )
          (assess_entity-inside request (resolve_scope ctx.placements ctx.auth) p.in_set
            ∙ ap admits (sym e))
