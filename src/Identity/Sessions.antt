-- ===== src/Identity/Sessions.antt =====
-- src/contexts/identity/internal/identity-provider.ts, `SessionStore`. A method takes the instant
-- that the store's clock shows during the call.
pub mod Invariant
pub mod Lifetime
pub mod Acceptance
use gldaassurance.Time.{instant_plus_ms, earlier, instant_le, Instant}
use gldaassurance.Base.{
  [], length, Option, ◌∷◌, some, if◌then◌else◌, false, get, suc, Bool, filter, ℕ, ◌==◌, List,
  String, none, true, put, ◌&&◌, string_eq,
}
use gldaassurance.Access.Types.{SessionId, issued, session_id_eq}

pub record SessionRecord : Type 0 where
  pub session_id : SessionId
  pub actor_id : String
  pub issued_at : Instant
  pub absolute_expiry : Instant
  pub idle_expiry : Instant
  pub revoked_at : Option Instant

-- The two fields of `SecurityPolicy` that the store reads.
pub record SecurityPolicy : Type 0 where
  pub session_absolute_lifetime_ms : ℕ
  pub session_idle_lifetime_ms : ℕ

pub record SessionStore : Type 0 where
  pub sessions : List (SessionId × SessionRecord)
  pub seq : ℕ
  pub policy : SecurityPolicy

pub data SessionRejection : Type 0 where
  not_found revoked absolute_expired idle_expired : SessionRejection

pub data Validated : Type 0 where
  valid : SessionRecord → Validated
  rejected : SessionRejection → Validated

abbrev pub new_record : SessionStore → String → Instant → SessionRecord
new_record store actor_id now = record {
  session_id = issued (suc store.seq);
  actor_id = actor_id;
  issued_at = now;
  absolute_expiry = instant_plus_ms now store.policy.session_absolute_lifetime_ms;
  idle_expiry = instant_plus_ms now store.policy.session_idle_lifetime_ms;
  revoked_at = none;
}

-- `issue`
unfoldable pub issue : SessionStore → String → Instant → SessionStore × SessionRecord
issue store actor_id now =
    let r = new_record store actor_id now in
    (record store { seq = suc store.seq; sessions = put r.session_id r store.sessions }, r)

-- The record with its idle window slid, never past the absolute expiry.
abbrev pub slide : SessionStore → SessionRecord → Instant → SessionRecord
slide store r now = record r {
  idle_expiry =
      earlier (instant_plus_ms now store.policy.session_idle_lifetime_ms) r.absolute_expiry;
}

abbrev pub is_revoked : SessionRecord → Bool
is_revoked r = elim r.revoked_at [ none ↦ false | some _ ↦ true ]

-- The part of `validate` behind the lookup.
abbrev pub validate_record :
    SessionStore → SessionId → Instant → SessionRecord → SessionStore × Validated
validate_record store id now r =
    if is_revoked r
    then (store, rejected revoked)
    else if instant_le r.absolute_expiry now
    then (store, rejected absolute_expired)
    else if instant_le r.idle_expiry now
    then (store, rejected idle_expired)
    else (
      record store { sessions = put id (slide store r now) store.sessions },
      valid (slide store r now),
    )

-- `validate`
unfoldable pub validate : SessionStore → SessionId → Instant → SessionStore × Validated
validate store id now = elim (get store.sessions id) [
  | none ↦ (store, rejected not_found)
  | some r ↦ validate_record store id now r
]

abbrev pub revoke_record : Instant → SessionRecord → SessionRecord
revoke_record now r = record r { revoked_at = some now }

-- `revoke`
unfoldable pub revoke : SessionStore → SessionId → Instant → SessionStore
revoke store id now = elim (get store.sessions id) [
  | none ↦ store
  | some r ↦ record store { sessions = put id (revoke_record now r) store.sessions }
]

-- The test in the loop of `revokeAllFor`.
abbrev pub is_active_of : String → SessionRecord → Bool
is_active_of actor_id r = r.actor_id == actor_id && (if is_revoked r then false else true)

-- The loop of `revokeAllFor`: it sets the key that it stands at, so each entry is replaced in place.
unfoldable pub revoke_entries :
    String → Instant → List (SessionId × SessionRecord) → List (SessionId × SessionRecord)
revoke_entries actor_id now [] = []
revoke_entries actor_id now ((id, r) ∷ rest) =
    (id, if is_active_of actor_id r then revoke_record now r else r)
    ∷ revoke_entries actor_id now rest

-- `revokeAllFor`, with the number of sessions that it revoked.
unfoldable pub revoke_all_for : SessionStore → String → Instant → SessionStore × ℕ
unfolding revoke_entries
revoke_all_for store actor_id now = (
  record store { sessions = revoke_entries actor_id now store.sessions },
  length (filter (λ e. is_active_of actor_id e.1) store.sessions),
)

-- `find`
abbrev pub find_session : SessionStore → SessionId → Option SessionRecord
find_session store id = get store.sessions id

-- `activeCount`
pub active_count : SessionStore → ℕ
active_count store = length (filter (λ e. if is_revoked e.1 then false else true) store.sessions)

-- A store before its first session.
abbrev pub empty_store : SecurityPolicy → SessionStore
empty_store policy = record { sessions = []; seq = 0; policy = policy }

-- A call that changes the store, and a history of calls with the instants at which they are made.
pub data SessionOp : Type 0 where
  issue_to : String → SessionOp
  validate_id : SessionId → SessionOp
  revoke_id : SessionId → SessionOp
  revoke_actor : String → SessionOp

unfoldable pub perform : SessionOp → Instant → SessionStore → SessionStore
perform (issue_to actor) now store = (issue store actor now).0
perform (validate_id id) now store = (validate store id now).0
perform (revoke_id id) now store = revoke store id now
perform (revoke_actor actor) now store = (revoke_all_for store actor now).0

unfoldable pub run : List (SessionOp × Instant) → SessionStore → SessionStore
run [] store = store
run ((op, now) ∷ ops) store = run ops (perform op now store)
