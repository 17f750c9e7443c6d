-- ===== src/Identity/Sessions/Lifetime.antt =====
-- Two promises of the session store over every later history of calls: a session that was revoked is
-- never accepted again, and none is accepted at or after the end of its absolute lifetime.
use gldaassurance.Time.{epoch_ms, Instant, instant_le}
use gldaassurance.Base.{
  ◌+◌, get, ◌⊎◌, List, ◌≤◌, String, refl, ◌≡◌, some, inr, get-put_self, inl, true, Bool-cases,
}
use gldaassurance.Identity.Sessions.{
  validate, revoked, run, revoke_id, SessionRecord, revoke, revoke_record, rejected, SessionOp,
  absolute_expired, SessionStore, issue, is_revoked, new_record, issue_to, perform,
}
use gldaassurance.Identity.Sessions.Invariant.{IsFresh, run-Kept, perform-IsFresh}
use gldaassurance.Access.Types.{SessionId, session_id_eq}
use gldaassurance.Time.Laws.{IsInstant, instant_le-plus}

revoke-found :
    (store : SessionStore) (id : SessionId) (r : SessionRecord) (at : Instant)
    → get store.sessions id ≡ some r
    → get (revoke store id at).sessions id ≡ some (revoke_record at r)
unfolding revoke
revoke-found store id r at h = rw (h, revoke) (get-put_self id (revoke_record at r) store.sessions)

issue-found :
    (store : SessionStore) (actor : String) (at : Instant)
    → get (issue store actor at).0.sessions (issue store actor at).1.session_id
      ≡ some (new_record store actor at)
unfolding issue
issue-found store actor at = get-put_self _ (new_record store actor at) store.sessions

-- In a store whose ids are fresh, a session that `revoke` finds is refused as revoked by
-- `validate`, which then changes nothing, after any history of later calls, whatever the clock
-- shows.
pub validate-revoked :
    (store : SessionStore) (id : SessionId) (r : SessionRecord) (at later : Instant)
    (ops : List (SessionOp × Instant))
    → IsFresh store
    → get store.sessions id ≡ some r
    → let after = run ops (revoke store id at) in
      validate after id later ≡ (after, rejected revoked)
unfolding validate revoke perform
validate-revoked store id r at later ops fresh h =
    let store' = revoke store id at in
    let found : get store'.sessions id ≡ some (revoke_record at r) = revoke-found store id r at h in
    let (r', at_id, ev) =
      run-Kept ops store' id (revoke_record at r) (perform-IsFresh (revoke_id id) at store fresh)
        found in
    let gone = ev.stays_revoked refl in rw (at_id, validate) (rw gone)

-- In a store whose ids are fresh, a session that `issue` has just made is refused by `validate`, as
-- revoked or as past its absolute expiry, after any history of later calls, at every well-formed
-- instant that names a moment at or after the issue plus the absolute lifetime.
pub validate-expired :
    (store : SessionStore) (actor : String) (at later : Instant) (ops : List (SessionOp × Instant))
    → IsFresh store
    → IsInstant later
    → epoch_ms at + store.policy.session_absolute_lifetime_ms ≤ epoch_ms later
    → let (store', r) = issue store actor at in
      let after = run ops store' in
      (validate after r.session_id later ≡ (after, rejected revoked))
      ⊎ (validate after r.session_id later ≡ (after, rejected absolute_expired))
unfolding validate issue perform
validate-expired store actor at later ops fresh valid_later late =
    let store' = (issue store actor at).0 in
    let r = new_record store actor at in
    let (r', at_id, ev) =
      run-Kept ops store' r.session_id r (perform-IsFresh (issue_to actor) at store fresh)
        (issue-found store actor at) in
    let past : instant_le r'.absolute_expiry later ≡ true =
      rw ev.same_expiry (instant_le-plus at later _ valid_later late) in
    elim (Bool-cases (is_revoked r')) [
      | inl gone ↦ inl (rw (at_id, validate) (rw gone))
      | inr live ↦ inr (rw (at_id, validate) (rw (live, past)))
    ]
