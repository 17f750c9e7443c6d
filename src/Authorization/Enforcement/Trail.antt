-- ===== src/Authorization/Enforcement/Trail.antt =====
-- The outcomes of `authorise`, and the trail that each leaves in the audit log.
use gldaassurance.Base.{
  false, [], ℕ, some, ◌≡◌, none, Bool-cases, if◌then◌else◌, inl, refl, ap, inr, ◌∙◌, String, true,
  List, ◌++◌, length, ◌∷◌, ◌⊎◌, map, Option,
}
use gldaassurance.Audit.{
  AuditReason, AuditEntry, AuditFailure, denied, granted, AuditLog, Verdict, write_action,
  read_action,
}
use gldaassurance.Identity.Sessions.{validate}
use gldaassurance.Access.Policy.{AuthorisedEntitySet, resolve_scope}
use gldaassurance.Audit.Appending.{
  is_complete, record_entry-cases, record_entry_complete, record_entry-failed,
}
use gldaassurance.Authorization.Enforcement.{
  assess, Assessment, AuthorisedRequest, authorization_denied, issue_request, authorised,
  AuthoriseRequest, admits, authorise, Backing, policy_failed, throws, RequestContext, Outcome,
  is_audited, conclude, refuse, audit_failed,
}
use gldaassurance.Authorization.Enforcement.Granting.{PassesChecks, assess-admits_iff}
use gldaassurance.Access.Types.{classification_name}

-- What every record of `authorise` says of the call: who asked, when, for what and from where.
abbrev pub entry_of :
    RequestContext
    → AuthoriseRequest
    → (verdict : Verdict) (because : Option AuditReason) (named : List String) → AuditEntry
entry_of ctx request verdict because named = record {
  occurred_at = ctx.clock_now;
  actor_id = ctx.auth.actor_id;
  actor_role = ctx.auth.role;
  impersonator_id = ctx.auth.impersonator_id;
  action = if request.declaration.is_write then write_action else read_action;
  entity_type = request.wanted_type;
  entity_id = elim request.wanted_entity [ none ↦ "*" | some id ↦ id ];
  fields = named;
  decision = verdict;
  reason = because;
  correlation_id = ctx.auth.correlation_id;
  rule_version = none;
  source_ip = ctx.request_ip;
  user_agent = ctx.request_agent;
}

-- A denial is recorded as denied, with its reason and no fields.
abbrev pub denial : RequestContext → AuthoriseRequest → AuditReason → AuditEntry
denial ctx request reason = entry_of ctx request denied (some reason) []

-- A grant is recorded as granted, with no reason and the classifications that are read.
abbrev pub approval : RequestContext → AuthoriseRequest → AuditEntry
approval ctx request =
    entry_of ctx request granted none
      (map classification_name request.declaration.reads_classifications)

-- A log with one record more, at its end.
abbrev pub Grew : (ℕ → AuditEntry → String) → AuditEntry → AuditLog → AuditLog → Type 0
Grew digest entry before after =
    (after.records
      ≡ before.records ++ record { id = digest (length before.records) entry; entry = entry } ∷ [])
    × (after.sealed ≡ before.sealed)

-- How the log changes, by the outcome.
abbrev pub Trail :
    (ℕ → AuditEntry → String)
    → RequestContext
    → AuthoriseRequest
    → (before after : AuditLog) → Outcome
    → Type 0
Trail digest ctx request before after (authorised out) =
    ((request.declaration.audit_reads ≡ false)
      × (request.declaration.is_write ≡ false)
      × (after ≡ before))
    ⊎ (((request.declaration.audit_reads ≡ true) ⊎ (request.declaration.is_write ≡ true))
        × Grew digest (approval ctx request) before after)
Trail digest ctx request before after (authorization_denied reason) =
    Grew digest (denial ctx request reason) before after
Trail digest ctx request before after (audit_failed failure) =
    (after ≡ before)
    × ((before.sealed ≡ true) ⊎ (ctx.auth.actor_id ≡ "") ⊎ (request.wanted_type ≡ ""))
Trail digest ctx request before after policy_failed = after ≡ before

authorised_inj : {a b : AuthorisedRequest} → authorised a ≡ authorised b → b ≡ a
authorised_inj h = cc

audit_failed-ne : {f : AuditFailure} {a : AuthorisedRequest} → audit_failed f ≡ authorised a → ⊥
audit_failed-ne h = cc

denied-ne : {r : AuditReason} {a : AuthorisedRequest} → authorization_denied r ≡ authorised a → ⊥
denied-ne h = cc

policy_failed-ne : {a : AuthorisedRequest} → policy_failed ≡ authorised a → ⊥
policy_failed-ne h = cc

module _ (digest : ℕ → AuditEntry → String) (ctx : RequestContext)
    (request : AuthoriseRequest) where
  conclude-Trail :
      (b : Backing) (a : Assessment)
      → Trail digest ctx request b.log
          (conclude digest ctx request b a).0.log
          (conclude digest ctx request b a).1
  conclude-Trail b throws = refl
  conclude-Trail b (refuse reason) =
      elim (record_entry-cases digest b.log (denial ctx request reason)) [
        | inl went ↦ rw went (refl, refl)
        | inr (f, bad) ↦
            rw bad (refl, record_entry-failed digest b.log (denial ctx request reason) f bad)
      ]
  conclude-Trail b (admits set) = elim (Bool-cases request.declaration.audit_reads) [
    | inl reads ↦ elim (record_entry-cases digest b.log (approval ctx request)) [
      | inl went ↦ rw (reads, went) (inr (inl refl, (refl, refl)))
      | inr (f, bad) ↦
          rw (reads, bad) (refl, record_entry-failed digest b.log (approval ctx request) f bad)
    ]
    | inr unread ↦ elim (Bool-cases request.declaration.is_write) [
      | inl writes ↦ elim (record_entry-cases digest b.log (approval ctx request)) [
        | inl went ↦ rw (went, unread, writes) (inr (inr refl, (refl, refl)))
        | inr (f, bad) ↦
            rw (bad, unread, writes)
              (refl, record_entry-failed digest b.log (approval ctx request) f bad)
      ]
      | inr neither ↦ rw (unread, neither) (inl (refl, refl, refl))
    ]
  ]

  conclude-authorised :
      (b : Backing) (a : Assessment) (out : AuthorisedRequest)
      → (conclude digest ctx request b a).1 ≡ authorised out
      → (set : AuthorisedEntitySet) × (a ≡ admits set) × (out ≡ issue_request ctx request set)
  conclude-authorised b throws out h = absurd (policy_failed-ne h)
  conclude-authorised b (refuse reason) out h =
      elim (record_entry-cases digest b.log (denial ctx request reason)) [
        | inl went ↦ absurd (denied-ne (rw went at h))
        | inr (f, bad) ↦ absurd (audit_failed-ne (rw bad at h))
      ]
  conclude-authorised b (admits set) out h = elim (Bool-cases (is_audited request)) [
    | inl audited ↦ elim (record_entry-cases digest b.log (approval ctx request)) [
      | inl went ↦ (set, refl, authorised_inj (rw (audited, went) at h))
      | inr (f, bad) ↦ absurd (audit_failed-ne (rw (audited, bad) at h))
    ]
    | inr unaudited ↦ (set, refl, authorised_inj (rw unaudited at h))
  ]

  -- A denied call adds exactly one record at the end of the log, denied and with the reason of the
  -- denial; an authorised one adds exactly one that is granted where the declaration audits reads or
  -- is a write, and nothing elsewhere. A call whose policy lookup throws leaves the log as it was, and
  -- so does one whose record is refused, which needs a sealed log, a caller with no id or an empty
  -- entity type. A record holds the caller, the instant, the action, the entity asked for and where the request came from.
  pub authorise-Trail :
      (b : Backing)
      → Trail digest ctx request b.log
          (authorise digest ctx request b).0.log
          (authorise digest ctx request b).1
  unfolding authorise
  authorise-Trail b =
      conclude-Trail (record b { store = (validate b.store ctx.auth.session_id ctx.clock_now).0 })
        (assess ctx request (validate b.store ctx.auth.session_id ctx.clock_now).1)

  -- A call that returns a request has passed every check, and the request carries the caller's
  -- context, the capability declared, the set that the caller's scope resolves to and the caller's
  -- correlation id.
  pub authorise-authorised :
      (b : Backing) (out : AuthorisedRequest)
      → (authorise digest ctx request b).1 ≡ authorised out
      → PassesChecks ctx request b.store
        × (out.granted_auth ≡ ctx.auth)
        × (out.granted_capability ≡ request.declaration.capability)
        × (out.entity_set ≡ resolve_scope ctx.placements ctx.auth)
        × (out.granted_correlation ≡ ctx.auth.correlation_id)
  unfolding authorise
  authorise-authorised b out h =
      let (set, done, e) =
        conclude-authorised
          (record b { store = (validate b.store ctx.auth.session_id ctx.clock_now).0 })
          (assess ctx request (validate b.store ctx.auth.session_id ctx.clock_now).1) out h in
      let (passed, same) = (assess-admits_iff ctx request b.store set).0 done in
      (
        passed,
        ap (λ r. r.granted_auth) e,
        ap (λ r. r.granted_capability) e,
        ap (λ r. r.entity_set) e ∙ same,
        ap (λ r. r.granted_correlation) e,
      )

  -- A request that passes every check is authorised, where the log is open and the caller and the
  -- entity type have names that are not empty.
  pub authorise_complete :
      (b : Backing)
      → b.log.sealed ≡ false
      → is_complete (approval ctx request) ≡ true
      → PassesChecks ctx request b.store
      → (authorise digest ctx request b).1
        ≡ authorised (issue_request ctx request (resolve_scope ctx.placements ctx.auth))
  unfolding authorise
  authorise_complete b is_open whole passed =
      let done =
        (assess-admits_iff ctx request b.store (resolve_scope ctx.placements ctx.auth)).1
          (passed, refl) in
      rw done (elim (Bool-cases (is_audited request)) [
        | inl audited ↦
            rw (audited, record_entry_complete digest b.log (approval ctx request) is_open whole)
        | inr unaudited ↦ rw unaudited
      ])
