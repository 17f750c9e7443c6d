-- ===== src/Tests/SessionRuns.antt =====
-- The session store at a concrete session.
use gldaassurance.Time.{earlier}
use gldaassurance.Base.{◌⊎◌, ◌∷◌, some, get, ◌↔◌, arith, [], ◌≡◌, refl, put}
use gldaassurance.Tests.Data.{minute_later, noon, lifetimes, mia_session, one_session, evening}
use gldaassurance.Identity.Sessions.{
  validate, issue, SessionRecord, slide, revoked, absolute_expired, empty_store, run, validate_id,
  valid, revoke, rejected, perform, issue_to,
}
use gldaassurance.Identity.Sessions.Lifetime.{validate-revoked, validate-expired}
use gldaassurance.Identity.Sessions.Invariant.{empty_store-IsFresh, IsFresh, perform-IsFresh}
use gldaassurance.Identity.Sessions.Acceptance.{IsAccepted, validate-valid_iff}
use gldaassurance.Access.Types.{issued, session_id_eq, delivery_manager}
use gldaassurance.Identity.Provider.{User}

issue_run : issue (empty_store lifetimes) "mia" noon ≡ (one_session, mia_session)
unfolding issue put
issue_run = refl

one_session-IsFresh : IsFresh one_session
unfolding perform issue put
one_session-IsFresh =
    perform-IsFresh (issue_to "mia") noon (empty_store lifetimes) (empty_store-IsFresh lifetimes)

validate-revoked_example :
    let after =
      run ((validate_id (issued 1), minute_later) ∷ []) (revoke one_session (issued 1) noon) in
    validate after (issued 1) evening ≡ (after, rejected revoked)
unfolding get
validate-revoked_example =
    validate-revoked one_session (issued 1) mia_session noon evening
      ((validate_id (issued 1), minute_later) ∷ []) one_session-IsFresh refl

validate-expired_example :
    let (store', r) = issue (empty_store lifetimes) "mia" noon in
    let after = run ((validate_id (issued 1), minute_later) ∷ []) store' in
    (validate after r.session_id evening ≡ (after, rejected revoked))
    ⊎ (validate after r.session_id evening ≡ (after, rejected absolute_expired))
validate-expired_example =
    validate-expired (empty_store lifetimes) "mia" noon evening
      ((validate_id (issued 1), minute_later) ∷ []) (empty_store-IsFresh lifetimes) (omega arith)
      (omega arith)

validate-valid_iff_example :
    ((validate one_session (issued 1) minute_later).1
      ≡ valid (slide one_session mia_session minute_later))
    ↔ ((r : SessionRecord) × IsAccepted one_session (issued 1) minute_later r
        × (slide one_session mia_session minute_later ≡ slide one_session r minute_later))
validate-valid_iff_example =
    validate-valid_iff one_session (issued 1) minute_later
      (slide one_session mia_session minute_later)

accepted_run :
    (validate one_session (issued 1) minute_later).1
    ≡ valid (slide one_session mia_session minute_later)
unfolding validate get
accepted_run = refl

earlier_mixed_run :
    earlier noon (record { second = noon.second; fraction = some 500 })
    ≡ record { second = noon.second; fraction = some 500 }
earlier_mixed_run = refl

abbrev mia : User
mia = record {
  user_actor = "a-1";
  username = "mia";
  display_name = "Mia";
  user_role = delivery_manager;
  user_scope = [];
}
