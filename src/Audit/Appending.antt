-- ===== src/Audit/Appending.antt =====
-- What a sequence of writes does to the log.
use mathlib.Core.List.{append-nil, append_assoc}
use gldaassurance.Base.{
  ℕ, ◌==◌, ◌&&◌, inl, false, suc, ◌≡◌, ◌∙◌, Bool-cases, ◌++◌, Bool, ◌⊎◌, [], sym, inr, filter, ◌∷◌,
  length-append, true, length, String, List, refl, arith, if◌then◌else◌, string_eq, ==_iff,
}
use gldaassurance.Audit.{
  AuditFailure, push_record, recorded, AuditEntry, AuditRecord, no_actor, log_sealed, AuditLog,
  no_entity_type, write_failed, record_entry,
}

-- The writes in order; one that is refused leaves the log as it was.
unfoldable pub record_all : (ℕ → AuditEntry → String) → List AuditEntry → AuditLog → AuditLog
record_all digest [] log = log
record_all digest (e ∷ es) log = elim (record_entry digest log e) [
  | recorded log' ↦ record_all digest es log'
  | write_failed _ ↦ record_all digest es log
]

-- The entry names an actor and an entity type.
abbrev pub is_complete : AuditEntry → Bool
is_complete e =
    (if e.actor_id == "" then false else true) && (if e.entity_type == "" then false else true)

-- The entries as records, the first at position `n`: each id is the digest of the position and entry.
abbrev pub numbered : (ℕ → AuditEntry → String) → ℕ → List AuditEntry → List AuditRecord
numbered digest n [] = []
numbered digest n (e ∷ es) = record { id = digest n e; entry = e } ∷ numbered digest (suc n) es

recorded-ne : {l : AuditLog} {f : AuditFailure} → recorded l ≡ write_failed f → ⊥
recorded-ne h = cc

module _ (digest : ℕ → AuditEntry → String) where
  pub record_entry_complete :
      (log : AuditLog) (e : AuditEntry)
      → log.sealed ≡ false
      → is_complete e ≡ true
      → record_entry digest log e ≡ recorded (push_record digest log e)
  unfolding record_entry
  record_entry_complete log e is_open h = elim (Bool-cases (e.actor_id == "")) [
    | inl a ↦ absurd (let c : false ≡ true = rw a at h in cc)
    | inr a ↦ elim (Bool-cases (e.entity_type == "")) [
      | inl t ↦ absurd (let c : false ≡ true = rw (a, t) at h in cc)
      | inr t ↦ rw (is_open, a, t)
    ]
  ]

  pub record_entry-refused :
      (log : AuditLog) (e : AuditEntry)
      → (log.sealed ≡ true) ⊎ (is_complete e ≡ false)
      → (f : AuditFailure) × (record_entry digest log e ≡ write_failed f)
  unfolding record_entry
  record_entry-refused log e (inl closed) = (log_sealed, rw closed)
  record_entry-refused log e (inr h) = elim (Bool-cases log.sealed) [
    | inl closed ↦ (log_sealed, rw closed)
    | inr is_open ↦ elim (Bool-cases (e.actor_id == "")) [
      | inl a ↦ (no_actor, rw (is_open, a))
      | inr a ↦ elim (Bool-cases (e.entity_type == "")) [
        | inl t ↦ (no_entity_type, rw (is_open, a, t))
        | inr t ↦ absurd (let c : true ≡ false = rw (a, t) at h in cc)
      ]
    ]
  ]

  -- A write fails on a sealed log and where the entry leaves out its actor or its entity type.
  pub record_entry-failed :
      (log : AuditLog) (e : AuditEntry) (f : AuditFailure)
      → record_entry digest log e ≡ write_failed f
      → (log.sealed ≡ true) ⊎ (e.actor_id ≡ "") ⊎ (e.entity_type ≡ "")
  unfolding record_entry
  record_entry-failed log e f h = elim (Bool-cases log.sealed) [
    | inl closed ↦ inl closed
    | inr is_open ↦ elim (Bool-cases (e.actor_id == "")) [
      | inl a ↦ inr (inl ((==_iff e.actor_id "").0 a))
      | inr a ↦ elim (Bool-cases (e.entity_type == "")) [
        | inl t ↦ inr (inr ((==_iff e.entity_type "").0 t))
        | inr t ↦ absurd (recorded-ne (rw (is_open, a, t) at h))
      ]
    ]
  ]

  -- A write either appends its record or leaves the log alone.
  pub record_entry-cases :
      (log : AuditLog) (e : AuditEntry)
      → (record_entry digest log e ≡ recorded (push_record digest log e))
        ⊎ ((f : AuditFailure) × (record_entry digest log e ≡ write_failed f))
  record_entry-cases log e = elim (Bool-cases log.sealed) [
    | inl closed ↦ inr (record_entry-refused log e (inl closed))
    | inr is_open ↦ elim (Bool-cases (is_complete e)) [
      | inl whole ↦ inl (record_entry_complete log e is_open whole)
      | inr partial ↦ inr (record_entry-refused log e (inr partial))
    ]
  ]

  -- On an open log, any sequence of writes keeps every record in its place and adds exactly the
  -- complete entries, in their order, each under the digest of its position.
  pub record_all-appends :
      (es : List AuditEntry) (log : AuditLog)
      → log.sealed ≡ false
      → (record_all digest es log).records
        ≡ log.records ++ numbered digest (length log.records) (filter is_complete es)
  unfolding record_all
  record_all-appends [] log is_open = sym (append-nil log.records)
  record_all-appends (e ∷ es) log is_open = elim (Bool-cases (is_complete e)) [
    | inl whole ↦
        let pushed = push_record digest log e in
        let grown : length pushed.records ≡ suc (length log.records) =
          length-append log.records _ ∙ omega arith in
        let ih = record_all-appends es pushed is_open in
        rw (record_entry_complete log e is_open whole, record_all)
          (rw whole (ih ∙ rw grown (append_assoc log.records _ _)))
    | inr partial ↦
        let (f, refused) = record_entry-refused log e (inr partial) in
        rw (refused, record_all) (rw partial (record_all-appends es log is_open))
  ]

  -- On a sealed log it changes nothing.
  pub record_all-sealed :
      (es : List AuditEntry) (log : AuditLog) → log.sealed ≡ true → record_all digest es log ≡ log
  unfolding record_all
  record_all-sealed [] log closed = refl
  record_all-sealed (e ∷ es) log closed =
      let (f, refused) = record_entry-refused log e (inl closed) in
      rw (refused, record_all) (record_all-sealed es log closed)
