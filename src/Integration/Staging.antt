-- ===== src/Integration/Staging.antt =====
-- src/contexts/integration/internal/staging.ts: the key of a staged record, and the reconciliation of a
-- batch. The text of a reason is named by its case.
use gldaassurance.Base.{
  String, List, append_text, ◌↔◌, ℕ, true, nat_eqb_iff, some, if◌then◌else◌, length, none, Option,
  nat_eqb, Bool, ◌≡◌,
}

-- `idempotencyKey`
unfoldable pub idempotency_key : (source_id natural_key source_version : String) → String
idempotency_key source_id natural_key source_version =
    append_text source_id
      (append_text "::" (append_text natural_key (append_text "::" source_version)))

pub data ReconcileReason : Type 0 where
  no_control_total : ReconcileReason
  counts_differ : (declared staged : ℕ) → ReconcileReason

pub record Reconciliation : Type 0 where
  pub declared_record_count : Option ℕ
  pub staged_record_count : ℕ
  pub is_reconciled : Bool
  pub reconcile_reason : Option ReconcileReason

-- `reconcile`
unfoldable pub reconcile {ℓ} : {A : Type ℓ} → Option ℕ → List A → Reconciliation
reconcile none staged = record {
  declared_record_count = none;
  staged_record_count = length staged;
  is_reconciled = true;
  reconcile_reason = some no_control_total;
}
reconcile (some declared) staged =
    let same = nat_eqb declared (length staged) in
    record {
      declared_record_count = some declared;
      staged_record_count = length staged;
      is_reconciled = same;
      reconcile_reason = if same then none else some (counts_differ declared (length staged));
    }

-- A batch with a declared total is reconciled exactly where as many records were staged.
pub reconcile-is_reconciled_iff :
    {A : Type 0} (declared : ℕ) (staged : List A)
    → ((reconcile (some declared) staged).is_reconciled ≡ true) ↔ (declared ≡ length staged)
unfolding reconcile
reconcile-is_reconciled_iff declared staged = nat_eqb_iff declared (length staged)
