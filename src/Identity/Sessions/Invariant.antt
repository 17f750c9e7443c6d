-- ===== src/Identity/Sessions/Invariant.antt =====
-- What every history of calls keeps: ids are not reused, and of a session the actor and the absolute
-- expiry never change, and a revocation stays.
use gldaassurance.Time.{Instant, instant_le}
use mathlib.Core.Path.{subst}
use gldaassurance.Base.{
  [], ◌<◌, ◌∷◌, some, if◌then◌else◌, inl, get, refl, ℕ, ◌==◌, List, String, arith, get-put, ◌≡◌,
  inr, none, true, put, Bool-cases, ==_iff, ◌∙◌, Option-cases, suc, ap, sym, none-ne-some, some_inj,
}
use gldaassurance.Identity.Sessions.{
  SessionStore, revoke_entries, is_active_of, SessionRecord, is_revoked, revoke_record,
  validate_record, revoke_actor, slide, revoke_all_for, revoke, validate, perform, validate_id,
  issue_to, issue, revoke_id, SessionOp, run, SecurityPolicy, empty_store,
}
use gldaassurance.Access.Types.{SessionId, issued, other, session_id_eq}

-- No id beyond the counter is in use, and none that was not issued.
pub record IsFresh (store : SessionStore) : Type 0 where
  pub unused : (n : ℕ) → store.seq < n → get store.sessions (issued n) ≡ none
  pub foreign : (s : String) → get store.sessions (other s) ≡ none

-- `r` has become `r'`.
pub record Evolves (r r' : SessionRecord) : Type 0 where
  pub same_actor : r'.actor_id ≡ r.actor_id
  pub same_expiry : r'.absolute_expiry ≡ r.absolute_expiry
  pub same_issue : r'.issued_at ≡ r.issued_at
  pub stays_revoked : is_revoked r ≡ true → is_revoked r' ≡ true

pub Evolves-refl : (r : SessionRecord) → Evolves r r
Evolves-refl r = record {
  same_actor = refl;
  same_expiry = refl;
  same_issue = refl;
  stays_revoked = λ h. h;
}

pub Evolves-trans : (r s t : SessionRecord) → Evolves r s → Evolves s t → Evolves r t
Evolves-trans r s t p q = record {
  same_actor = ground arith;
  same_expiry = ground arith;
  same_issue = ground arith;
  stays_revoked = λ h. q.stays_revoked (p.stays_revoked h);
}

-- What stands under an id in the later store, if `r` stood there.
abbrev pub Kept : SessionStore → SessionId → SessionRecord → Type 0
Kept store id r = (r' : SessionRecord) × (get store.sessions id ≡ some r') × Evolves r r'

pub get-revoke_entries :
    (actor : String) (now : Instant) (entries : List (SessionId × SessionRecord)) (id : SessionId)
    → get (revoke_entries actor now entries) id ≡ elim (get entries id) [
      | none ↦ none
      | some r ↦ some (if is_active_of actor r then revoke_record now r else r)
    ]
unfolding get revoke_entries
get-revoke_entries actor now [] id = refl
get-revoke_entries actor now ((j, r) ∷ rest) id = elim (Bool-cases (j == id)) [
  | inl same ↦ rw same
  | inr differs ↦ rw differs (get-revoke_entries actor now rest id)
]

put-Kept :
    (store : SessionStore) (id j : SessionId) (r s s' : SessionRecord)
    → get store.sessions j ≡ some s
    → Evolves s s'
    → get store.sessions id ≡ some r
    → Kept (record store { sessions = put j s' store.sessions }) id r
put-Kept store id j r s s' at_j ev at_id = elim (Bool-cases (j == id)) [
  | inl same ↦
      let p : j ≡ id = (==_iff j id).0 same in
      let q : some s ≡ some r = sym at_j ∙ ap (get store.sessions) p ∙ at_id in
      (s', rw (get-put, same), subst (λ x. Evolves x s') (some_inj s r q) ev)
  | inr differs ↦ (r, rw (get-put, differs) at_id, Evolves-refl r)
]

slide-Evolves :
    (store : SessionStore) (r : SessionRecord) (now : Instant) → Evolves r (slide store r now)
slide-Evolves store r now = record {
  same_actor = refl;
  same_expiry = refl;
  same_issue = refl;
  stays_revoked = λ h. h;
}

revoke_record-Evolves : (now : Instant) (r : SessionRecord) → Evolves r (revoke_record now r)
revoke_record-Evolves now r = record {
  same_actor = refl;
  same_expiry = refl;
  same_issue = refl;
  stays_revoked = λ h. refl;
}

issue-Kept :
    (store : SessionStore) (actor : String) (now : Instant) (id : SessionId) (r : SessionRecord)
    → IsFresh store
    → get store.sessions id ≡ some r
    → Kept (issue store actor now).0 id r
unfolding issue
issue-Kept store actor now id r fresh at_id = elim (Bool-cases (issued (suc store.seq) == id)) [
  | inl same ↦
      let p : issued (suc store.seq) ≡ id = (==_iff _ id).0 same in
      let q : get store.sessions (issued (suc store.seq)) ≡ none =
        fresh.unused (suc store.seq) (omega arith) in
      absurd (none-ne-some r (sym q ∙ ap (get store.sessions) p ∙ at_id))
  | inr differs ↦ (r, rw (get-put, differs) at_id, Evolves-refl r)
]

validate-Kept :
    (store : SessionStore) (j : SessionId) (now : Instant) (id : SessionId) (r : SessionRecord)
    → get store.sessions id ≡ some r
    → Kept (validate store j now).0 id r
unfolding validate
validate-Kept store j now id r at_id = elim (Option-cases (get store.sessions j)) [
  | inl missing ↦ rw (missing, validate) (r, at_id, Evolves-refl r)
  | inr (s, at_j) ↦ rw (at_j, validate) (go s at_j)
]
  where
    go :
        (s : SessionRecord)
        → get store.sessions j ≡ some s
        → Kept (validate_record store j now s).0 id r
    go s at_j = elim (Bool-cases (is_revoked s)) [
      | inl gone ↦ rw gone (r, at_id, Evolves-refl r)
      | inr live ↦ rw live (elim (Bool-cases (instant_le s.absolute_expiry now)) [
        | inl past ↦ rw past (r, at_id, Evolves-refl r)
        | inr ahead ↦ rw ahead (elim (Bool-cases (instant_le s.idle_expiry now)) [
          | inl idle ↦ rw idle (r, at_id, Evolves-refl r)
          | inr used ↦
              rw used
                (put-Kept store id j r s (slide store s now) at_j (slide-Evolves store s now) at_id)
        ])
      ])
    ]

revoke-Kept :
    (store : SessionStore) (j : SessionId) (now : Instant) (id : SessionId) (r : SessionRecord)
    → get store.sessions id ≡ some r
    → Kept (revoke store j now) id r
unfolding revoke
revoke-Kept store j now id r at_id = elim (Option-cases (get store.sessions j)) [
  | inl missing ↦ rw (missing, revoke) (r, at_id, Evolves-refl r)
  | inr (s, at_j) ↦
      rw (at_j, revoke)
        (put-Kept store id j r s (revoke_record now s) at_j (revoke_record-Evolves now s) at_id)
]

revoke_all_for-Kept :
    (store : SessionStore) (actor : String) (now : Instant) (id : SessionId) (r : SessionRecord)
    → get store.sessions id ≡ some r
    → Kept (revoke_all_for store actor now).0 id r
unfolding revoke_all_for
revoke_all_for-Kept store actor now id r at_id = elim (Bool-cases (is_active_of actor r)) [
  | inl hit ↦
      (revoke_record now r, rw (get-revoke_entries, at_id, hit), revoke_record-Evolves now r)
  | inr miss ↦ (r, rw (get-revoke_entries, at_id, miss), Evolves-refl r)
]

-- Every call keeps each session that is there.
perform-Kept :
    (op : SessionOp) (now : Instant) (store : SessionStore) (id : SessionId) (r : SessionRecord)
    → IsFresh store
    → get store.sessions id ≡ some r
    → Kept (perform op now store) id r
unfolding perform
perform-Kept (issue_to actor) now store id r fresh h = issue-Kept store actor now id r fresh h
perform-Kept (validate_id j) now store id r fresh h = validate-Kept store j now id r h
perform-Kept (revoke_id j) now store id r fresh h = revoke-Kept store j now id r h
perform-Kept (revoke_actor actor) now store id r fresh h =
    revoke_all_for-Kept store actor now id r h

put-IsFresh :
    (store : SessionStore) (j : SessionId) (s s' : SessionRecord)
    → IsFresh store
    → get store.sessions j ≡ some s
    → IsFresh (record store { sessions = put j s' store.sessions })
put-IsFresh store j s s' fresh at_j = record {
  unused = λ n h. elsewhere (issued n) (fresh.unused n h);
  foreign = λ t. elsewhere (other t) (fresh.foreign t);
}
  where
    elsewhere :
        (id : SessionId) → get store.sessions id ≡ none → get (put j s' store.sessions) id ≡ none
    elsewhere id e = elim (Bool-cases (j == id)) [
      | inl same ↦
          let p : j ≡ id = (==_iff j id).0 same in
          absurd (none-ne-some s (sym e ∙ ap (get store.sessions) (sym p) ∙ at_j))
      | inr differs ↦ rw (get-put, differs) e
    ]

issue-IsFresh :
    (store : SessionStore) (actor : String) (now : Instant)
    → IsFresh store
    → IsFresh (issue store actor now).0
unfolding issue
issue-IsFresh store actor now fresh = record {
  unused = λ n h. rw get-put (ground (arith, fresh.unused n));
  foreign = λ t. rw get-put (fresh.foreign t);
}

validate-IsFresh :
    (store : SessionStore) (j : SessionId) (now : Instant)
    → IsFresh store
    → IsFresh (validate store j now).0
unfolding validate
validate-IsFresh store j now fresh = elim (Option-cases (get store.sessions j)) [
  | inl missing ↦ rw (missing, validate) fresh
  | inr (s, at_j) ↦ rw (at_j, validate) (go s at_j)
]
  where
    go :
        (s : SessionRecord)
        → get store.sessions j ≡ some s
        → IsFresh (validate_record store j now s).0
    go s at_j = elim (Bool-cases (is_revoked s)) [
      | inl gone ↦ rw gone fresh
      | inr live ↦ rw live (elim (Bool-cases (instant_le s.absolute_expiry now)) [
        | inl past ↦ rw past fresh
        | inr ahead ↦ rw ahead (elim (Bool-cases (instant_le s.idle_expiry now)) [
          | inl idle ↦ rw idle fresh
          | inr used ↦ rw used (put-IsFresh store j s (slide store s now) fresh at_j)
        ])
      ])
    ]

revoke-IsFresh :
    (store : SessionStore) (j : SessionId) (now : Instant)
    → IsFresh store
    → IsFresh (revoke store j now)
unfolding revoke
revoke-IsFresh store j now fresh = elim (Option-cases (get store.sessions j)) [
  | inl missing ↦ rw (missing, revoke) fresh
  | inr (s, at_j) ↦ rw (at_j, revoke) (put-IsFresh store j s (revoke_record now s) fresh at_j)
]

revoke_all_for-IsFresh :
    (store : SessionStore) (actor : String) (now : Instant)
    → IsFresh store
    → IsFresh (revoke_all_for store actor now).0
unfolding revoke_all_for
revoke_all_for-IsFresh store actor now fresh = record {
  unused = λ n h. let e = fresh.unused n h in rw (get-revoke_entries, e);
  foreign = λ t. let e = fresh.foreign t in rw (get-revoke_entries, e);
}

-- Every call keeps the ids fresh.
pub perform-IsFresh :
    (op : SessionOp) (now : Instant) (store : SessionStore)
    → IsFresh store
    → IsFresh (perform op now store)
unfolding perform
perform-IsFresh (issue_to actor) now store fresh = issue-IsFresh store actor now fresh
perform-IsFresh (validate_id j) now store fresh = validate-IsFresh store j now fresh
perform-IsFresh (revoke_id j) now store fresh = revoke-IsFresh store j now fresh
perform-IsFresh (revoke_actor actor) now store fresh = revoke_all_for-IsFresh store actor now fresh

pub run-IsFresh :
    (ops : List (SessionOp × Instant)) (store : SessionStore)
    → IsFresh store
    → IsFresh (run ops store)
unfolding run
run-IsFresh [] store fresh = fresh
run-IsFresh ((op, now) ∷ ops) store fresh =
    run-IsFresh ops (perform op now store) (perform-IsFresh op now store fresh)

-- So does every history, and the session has only evolved.
pub run-Kept :
    (ops : List (SessionOp × Instant)) (store : SessionStore) (id : SessionId) (r : SessionRecord)
    → IsFresh store
    → get store.sessions id ≡ some r
    → Kept (run ops store) id r
unfolding run
run-Kept [] store id r fresh h = (r, h, Evolves-refl r)
run-Kept ((op, now) ∷ ops) store id r fresh h =
    let (s, at_s, ev) = perform-Kept op now store id r fresh h in
    let (t, at_t, ev') =
      run-Kept ops (perform op now store) id s (perform-IsFresh op now store fresh) at_s in
    (t, at_t, Evolves-trans r s t ev ev')

pub empty_store-IsFresh : (policy : SecurityPolicy) → IsFresh (empty_store policy)
unfolding get
empty_store-IsFresh policy = record { unused = λ n h. refl; foreign = λ t. refl }
