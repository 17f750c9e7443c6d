-- ===== src/Identity/Sessions/Acceptance.antt =====
-- When `validate` accepts, what it stores then, and what `revokeAllFor` reaches.
use gldaassurance.Time.{instant_le, Instant, instant_plus_ms}
use mathlib.Core.Path.{subst}
use gldaassurance.Base.{
  none, false, some, ◌≡◌, ◌↔◌, inr, Option-cases, get, inl, ◌⊎◌, Bool-cases, true, sym, ap, arith,
  String, ◌≢◌, if◌then◌else◌, ◌∙◌, ==_iff, string_eq,
}
use gldaassurance.Identity.Sessions.{
  is_revoked, rejected, validate, slide, valid, SessionRecord, SessionStore, not_found,
  is_active_of, absolute_expired, revoke_record, revoke_all_for, revoked, validate_record,
  idle_expired,
}
use gldaassurance.Access.Types.{SessionId, session_id_eq}
use gldaassurance.Identity.Sessions.Invariant.{get-revoke_entries}
use gldaassurance.Time.Laws.{earlier-le}

valid_inj : (a b : SessionRecord) → valid a ≡ valid b → a ≡ b
valid_inj a b h = cc

-- What `validate` accepts: a session that is there, is not revoked, and whose two expiries both lie
-- after the instant.
pub record IsAccepted (store : SessionStore) (id : SessionId) (now : Instant) (r : SessionRecord)
    : Type 0 where
  pub found : get store.sessions id ≡ some r
  pub live : is_revoked r ≡ false
  pub before_absolute : instant_le r.absolute_expiry now ≡ false
  pub before_idle : instant_le r.idle_expiry now ≡ false

record_accepted :
    (store : SessionStore) (id : SessionId) (now : Instant) (r out : SessionRecord)
    → (validate_record store id now r).1 ≡ valid out
    → (is_revoked r ≡ false)
      × (instant_le r.absolute_expiry now ≡ false)
      × (instant_le r.idle_expiry now ≡ false)
      × (out ≡ slide store r now)
record_accepted store id now r out h = elim (Bool-cases (is_revoked r)) [
  | inl gone ↦ absurd (let e : rejected revoked ≡ valid out = rw gone at h in cc)
  | inr live ↦ elim (Bool-cases (instant_le r.absolute_expiry now)) [
    | inl past ↦ absurd (let e : rejected absolute_expired ≡ valid out = rw (live, past) at h in cc)
    | inr ahead ↦ elim (Bool-cases (instant_le r.idle_expiry now)) [
      | inl idle ↦
          absurd (let e : rejected idle_expired ≡ valid out = rw (live, ahead, idle) at h in cc)
      | inr used ↦
          let e : valid (slide store r now) ≡ valid out = rw (live, ahead, used) at h in
          (live, ahead, used, valid_inj out (slide store r now) (sym e))
    ]
  ]
]

-- `validate` answers with a record exactly where a session is stored under the id that is not
-- revoked and whose two expiries lie after the instant; the record is that session with its idle
-- window slid.
pub validate-valid_iff :
    (store : SessionStore) (id : SessionId) (now : Instant) (out : SessionRecord)
    → ((validate store id now).1 ≡ valid out)
      ↔ ((r : SessionRecord) × IsAccepted store id now r × (out ≡ slide store r now))
unfolding validate
validate-valid_iff store id now out = (to (Option-cases (get store.sessions id)), from)
  where
    to :
        (get store.sessions id ≡ none) ⊎ ((r : SessionRecord) × (get store.sessions id ≡ some r))
        → (validate store id now).1 ≡ valid out
        → (r : SessionRecord) × IsAccepted store id now r × (out ≡ slide store r now)
    to (inl missing) h =
        absurd (let e : rejected not_found ≡ valid out = rw (missing, validate) at h in cc)
    to (inr (r, found)) h =
        let (live, ahead, used, e) =
          record_accepted store id now r out (rw (found, validate) at h) in
        (r, record { found = found; live = live; before_absolute = ahead; before_idle = used }, e)

    from :
        (r : SessionRecord) × IsAccepted store id now r × (out ≡ slide store r now)
        → (validate store id now).1 ≡ valid out
    from (r, a, e) =
        rw (a.found, validate) (rw (a.live, a.before_absolute, a.before_idle) (ap valid (sym e)))

slide-le :
    (store : SessionStore) (r : SessionRecord) (now : Instant)
    → instant_le (slide store r now).idle_expiry r.absolute_expiry ≡ true
slide-le store r now =
    earlier-le (instant_plus_ms now store.policy.session_idle_lifetime_ms) r.absolute_expiry

-- The session that `validate` answers with has an idle expiry that is not after its absolute one,
-- and it belongs to the actor, and ends at the absolute expiry, that were stored under the id.
pub validate-valid_bounds :
    (store : SessionStore) (id : SessionId) (now : Instant) (out : SessionRecord)
    → (validate store id now).1 ≡ valid out
    → (r : SessionRecord) × (get store.sessions id ≡ some r)
      × (out.actor_id ≡ r.actor_id)
      × (out.absolute_expiry ≡ r.absolute_expiry)
      × (instant_le out.idle_expiry out.absolute_expiry ≡ true)
validate-valid_bounds store id now out h =
    let (r, a, e) = (validate-valid_iff store id now out).0 h in
    (
      r,
      a.found,
      ap (λ s. s.actor_id) e,
      ap (λ s. s.absolute_expiry) e,
      subst (λ s. instant_le s.idle_expiry s.absolute_expiry ≡ true) (sym e) (slide-le store r now),
    )

-- After `revokeAllFor`, a stored session of that actor is refused as revoked at every instant, and
-- one of another actor is stored as before.
pub revoke_all_for-reach :
    (store : SessionStore) (actor : String) (at later : Instant) (id : SessionId)
    (r : SessionRecord)
    → get store.sessions id ≡ some r
    → let after = (revoke_all_for store actor at).0 in
      (r.actor_id ≡ actor → validate after id later ≡ (after, rejected revoked))
      × (r.actor_id ≢ actor → get after.sessions id ≡ some r)
unfolding validate revoke_all_for
revoke_all_for-reach store actor at later id r h = (mine, others)
  where
    after : SessionStore
    after = (revoke_all_for store actor at).0

    at_id : get after.sessions id ≡ some (if is_active_of actor r then revoke_record at r else r)
    at_id = rw (get-revoke_entries, h)

    mine : r.actor_id ≡ actor → validate after id later ≡ (after, rejected revoked)
    mine e =
        let gone : is_revoked (if is_active_of actor r then revoke_record at r else r) ≡ true =
          ground (arith, ==_iff r.actor_id actor) in
        rw (at_id, validate) (rw gone)

    others : r.actor_id ≢ actor → get after.sessions id ≡ some r
    others ne =
        let skip : is_active_of actor r ≡ false = ground (arith, ==_iff r.actor_id actor) in
        at_id ∙ rw skip
