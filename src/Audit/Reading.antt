-- ===== src/Audit/Reading.antt =====
-- What is read from the log: exactly the records that the criteria, and the reader's scope, admit.
use gldaassurance.Base.{
  some, ◌≡◌, none, true, String, List, Option, Memᴰ, ◌↔◌, ◌==◌, ==_iff, refl, Bool, string_eq, ◌&&◌,
  arith, inl, false, if◌then◌else◌, contains, mem-filter_iff, ◌||◌, Bool-cases, contains_iff, inr,
}
use gldaassurance.Time.{instant_le, Instant}
use gldaassurance.Audit.{
  query, within_authorised_entities, AuditRecord, AuditQuery, AuditLog, satisfies, unless_given,
}

-- The criterion, where it is given, holds.
abbrev pub Given {ℓ} : {A : Type ℓ} → (A → Type 0) → Option A → Type 0
Given P none = Unit
Given P (some a) = P a

-- The record meets every criterion of the query.
abbrev pub Meets : AuditQuery → AuditRecord → Type 0
Meets q r =
    Given (λ a. r.entry.actor_id ≡ a) q.actor_id
    × Given (λ t. r.entry.entity_type ≡ t) q.entity_type
    × Given (λ i. r.entry.entity_id ≡ i) q.entity_id
    × Given (λ f. instant_le f r.entry.occurred_at ≡ true) q.from
    × Given (λ t. instant_le r.entry.occurred_at t ≡ true) q.to

implied : (a b : Bool) → ((if a then false else true) || b) ≡ true → a ≡ true → b ≡ true
implied a b h k = ground arith

unless_given_iff {ℓ} :
    {A : Type ℓ} (test : A → Bool) (P : A → Type 0) (o : Option A)
    → ((a : A) → (test a ≡ true) ↔ P a)
    → (unless_given test o ≡ true) ↔ Given P o
unless_given_iff test P none h = (λ _. tt, λ _. refl)
unless_given_iff test P (some a) h = h a

all_five :
    (a b c d e : Bool)
    → (a && b && c && d && e) ≡ true
    → (a ≡ true) × (b ≡ true) × (c ≡ true) × (d ≡ true) × (e ≡ true)
all_five a b c d e h = ground arith

module _ (q : AuditQuery) (r : AuditRecord) where
  abbrev same_actor : String → Bool
  same_actor x = r.entry.actor_id == x

  abbrev same_type : String → Bool
  same_type x = r.entry.entity_type == x

  abbrev same_entity : String → Bool
  same_entity x = r.entry.entity_id == x

  abbrev not_before : Instant → Bool
  not_before x = instant_le x r.entry.occurred_at

  abbrev not_after : Instant → Bool
  not_after x = instant_le r.entry.occurred_at x

  satisfies_iff : (satisfies q r ≡ true) ↔ Meets q r
  satisfies_iff =
      let a =
        unless_given_iff same_actor (λ x. r.entry.actor_id ≡ x) q.actor_id (λ x. ==_iff _ x) in
      let t =
        unless_given_iff same_type (λ x. r.entry.entity_type ≡ x) q.entity_type (λ x. ==_iff _ x) in
      let i =
        unless_given_iff same_entity (λ x. r.entry.entity_id ≡ x) q.entity_id (λ x. ==_iff _ x) in
      let f =
        unless_given_iff not_before (λ x. not_before x ≡ true) q.from (λ x. (λ h. h, λ h. h)) in
      let u = unless_given_iff not_after (λ x. not_after x ≡ true) q.to (λ x. (λ h. h, λ h. h)) in
      (
        λ h.
            let (ha, ht, hi, hf, hu) =
              all_five (unless_given same_actor q.actor_id) (unless_given same_type q.entity_type)
                (unless_given same_entity q.entity_id) (unless_given not_before q.from)
                (unless_given not_after q.to) h in
            (a.0 ha, t.0 ht, i.0 hi, f.0 hf, u.0 hu),
        λ (ha, ht, hi, hf, hu). rw (a.1 ha, t.1 ht, i.1 hi, f.1 hf) (u.1 hu),
      )

-- A query returns a record exactly where the log holds it and it meets every criterion given; the
-- window includes both its ends.
pub query-mem_iff :
    (log : AuditLog) (q : AuditQuery) (r : AuditRecord)
    → Memᴰ r (query log q) ↔ (Memᴰ r log.records × Meets q r)
unfolding query
query-mem_iff log q r =
    let (to, from) = mem-filter_iff (satisfies q) r log.records in
    let (meets, fits) = satisfies_iff q r in
    (λ m. let (held, h) = to m in (held, meets h), λ (held, h). from (held, fits h))

-- A scoped reading keeps a record exactly where it names no known entity or an authorised one: it
-- drops just those on known entities outside the authorised set.
pub within_authorised_entities-mem_iff :
    (records : List AuditRecord) (known authorised : List String) (r : AuditRecord)
    → Memᴰ r (within_authorised_entities records known authorised)
      ↔ (Memᴰ r records × (Memᴰ r.entry.entity_id known → Memᴰ r.entry.entity_id authorised))
unfolding within_authorised_entities
within_authorised_entities-mem_iff records known authorised r =
    let id = r.entry.entity_id in
    let (to, from) =
      mem-filter_iff
        (λ x.
          (if contains known x.entry.entity_id then false else true)
          || contains authorised x.entry.entity_id)
        r records in
    let k = contains_iff known id in
    let a = contains_iff authorised id in
    (
      λ m.
          let (held, h) = to m in
          (
            held,
            λ in_known. a.0 (implied (contains known id) (contains authorised id) h (k.1 in_known)),
          ),
      λ (held, h). from (
        held,
        elim (Bool-cases (contains known id)) [
          | inl in_known ↦ rw (in_known, a.1 (h (k.0 in_known)))
          | inr unknown ↦ rw unknown
        ],
      ),
    )
