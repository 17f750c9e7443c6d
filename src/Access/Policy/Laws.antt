-- ===== src/Access/Policy/Laws.antt =====
-- What `may` decides, on every input, against the table of the capabilities of each role.
use gldaassurance.Base.{
  String, ◌≡◌, refl, ◌↔◌, Bool, true, false, List, [], ◌∷◌, map, Memᴰ, arith, ◌==◌, ==_iff,
  contains, contains_iff, all, all_iff, All-mem, Bool-cases, inl, inr, sym, string_eq,
}
use gldaassurance.Access.Types.{
  Role, executive, portfolio_director, delivery_manager, finance_controller, assurance_auditor,
  security_admin, role_eq, AuthorizationContext, Capability, capability_name, project_view,
  project_view_commercial, portfolio_view_aggregates, health_set_reported_rag,
  health_apply_override, intervention_manage, rules_edit_thresholds, audit_read,
  audit_read_access_events_only, identity_manage_grants, assistant_use, forecast_update_etc,
  contract_revise_baseline, commercial_set_cr_assumption, risk_accept_risk, recovery_set_assumption,
  data_apply_correction,
}
use gldaassurance.Access.Policy.{
  capability_matrix, Property, own, inherited, absent, property, object_prototype_keys, grant,
  decided, answer, may,
}

-- The matrix of the policy read by columns: what each role may do.
abbrev pub capabilities_of : Role → List Capability
capabilities_of executive =
    project_view ∷ project_view_commercial ∷ portfolio_view_aggregates ∷ health_apply_override
    ∷ intervention_manage ∷ rules_edit_thresholds ∷ assistant_use ∷ risk_accept_risk
    ∷ recovery_set_assumption ∷ []
capabilities_of portfolio_director =
    project_view ∷ project_view_commercial ∷ portfolio_view_aggregates ∷ health_set_reported_rag
    ∷ health_apply_override ∷ intervention_manage ∷ assistant_use ∷ forecast_update_etc
    ∷ contract_revise_baseline ∷ commercial_set_cr_assumption ∷ risk_accept_risk
    ∷ recovery_set_assumption ∷ []
capabilities_of delivery_manager =
    project_view ∷ health_set_reported_rag ∷ intervention_manage ∷ assistant_use
    ∷ forecast_update_etc ∷ recovery_set_assumption ∷ []
capabilities_of finance_controller =
    project_view ∷ project_view_commercial ∷ portfolio_view_aggregates ∷ assistant_use
    ∷ forecast_update_etc ∷ contract_revise_baseline ∷ commercial_set_cr_assumption
    ∷ data_apply_correction ∷ []
capabilities_of assurance_auditor =
    project_view ∷ project_view_commercial ∷ portfolio_view_aggregates ∷ audit_read ∷ assistant_use
    ∷ []
capabilities_of security_admin = audit_read_access_events_only ∷ identity_manage_grants ∷ []

-- The names of a role's capabilities.
abbrev pub names_of : Role → List String
names_of role = map capability_name (capabilities_of role)

abbrev contains_role : Property (List Role) → Role → Bool
contains_role (own row) role = contains row role
contains_role inherited role = false
contains_role absent role = false

pub own-mem :
    {V : Type 0} (fields : List (String × V)) (key : String) (v : V)
    → property fields key ≡ own v
    → Memᴰ (key, v) fields
unfolding property
own-mem [] key v h = elim (Bool-cases (contains object_prototype_keys key)) [
  | inl a ↦ absurd (ground (arith, a))
  | inr b ↦ absurd (ground (arith, b))
]
own-mem ((k, w) ∷ fields) key v h = elim (Bool-cases (k == key)) [
  | inl same ↦
      let e : k ≡ key = (==_iff k key).0 same in
      let f : w ≡ v = ground arith in Memᴰ.head (λ i. (sym e i, sym f i))
  | inr differs ↦ Memᴰ.tail (own-mem fields key v (rw (differs, property) at h))
]

abbrev row_ok : String × List Role → Bool
row_ok (name, row) = all (λ r. contains (names_of r) name) row

matrix_rows_ok : all row_ok capability_matrix ≡ true
unfolding capability_matrix
matrix_rows_ok = refl

names_ok :
    (role : Role)
    → all (λ n. contains_role (property capability_matrix n) role) (names_of role) ≡ true
unfolding property capability_matrix
names_ok executive = refl
names_ok portfolio_director = refl
names_ok delivery_manager = refl
names_ok finance_controller = refl
names_ok assurance_auditor = refl
names_ok security_admin = refl

answer-grant_iff :
    (role : Role) (name : String) (p : Property (List Role))
    → (answer role name p ≡ decided grant) ↔ (contains_role p role ≡ true)
answer-grant_iff role name (own row) = ground arith
answer-grant_iff role name inherited = ground arith
answer-grant_iff role name absent = ground arith

mem-names_of :
    (role : Role) (name : String) (p : Property (List Role))
    → property capability_matrix name ≡ p
    → contains_role p role ≡ true
    → Memᴰ name (names_of role)
mem-names_of role name (own row) found h =
    let ok : row_ok (name, row) ≡ true =
      All-mem (λ e. row_ok e ≡ true) capability_matrix
        ((all_iff row_ok capability_matrix).0 matrix_rows_ok)
        (own-mem capability_matrix name row found) in
    let listed : contains (names_of role) name ≡ true =
      All-mem (λ r. contains (names_of r) name ≡ true) row
        ((all_iff (λ r. contains (names_of r) name) row).0 ok) ((contains_iff row role).0 h) in
    (contains_iff (names_of role) name).0 listed
mem-names_of role name inherited found h = cc
mem-names_of role name absent found h = cc

-- `may` grants a capability to a caller exactly where the name that it is given is that of one of
-- the capabilities of the caller's role.
pub may-grant_iff :
    (ctx : AuthorizationContext) (name : String)
    → (may ctx name ≡ decided grant) ↔ Memᴰ name (names_of ctx.role)
unfolding may
may-grant_iff ctx name =
    let p = property capability_matrix name in
    let (to, from) = answer-grant_iff ctx.role name p in
    let names = names_of ctx.role in
    let test : String → Bool = λ n. contains_role (property capability_matrix n) ctx.role in
    (
      λ h. mem-names_of ctx.role name p refl (to h),
      λ m. from (All-mem (λ n. test n ≡ true) names ((all_iff test names).0 (names_ok ctx.role)) m),
    )
