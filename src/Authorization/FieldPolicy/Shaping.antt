-- ===== src/Authorization/FieldPolicy/Shaping.antt =====
-- What leaves in a shaped payload, and when shaping throws.
use mathlib.Core.List.Permᴰ
use gldaassurance.Base.{
  filter, Bool, [], Bool-cases, ◌&&◌, ◌∷◌, true, contains, inr, All, inl, map, false, Memᴰ, ◌≡◌,
  if◌then◌else◌, refl, String, List, string_eq, ap, All-mem, ◌↔◌, mem-filter_iff, ◌∙◌, contains_iff,
  sym, mem_of_mem-map, arith, mem-map, sort-perm, mem_of_perm,
}
use gldaassurance.Access.Policy.{
  own, absent, classification_matrix, security_telemetry_resources, Property, property, inherited,
  text_before,
}
use gldaassurance.Access.Types.{Role, role_eq, AuthorizationContext}
use gldaassurance.Authorization.FieldPolicy.{
  is_readable, ShapeResult, shape_fields, unclassified_field, misplaced_security_telemetry,
  with_rest, shaped, FieldClassificationMap, Shaped, add_field, FieldPolicy, omit, shape_field,
  inherited_policy, is_telemetry, shape, sort_names,
}
use gldaassurance.Access.Policy.Laws.{own-mem}

-- Every policy of the map omits.
abbrev pub OmitsAll : FieldClassificationMap → Type 0
OmitsAll classifications = All (λ e. e.1.disposition ≡ omit) classifications

-- The field is classified, and a role may read its classification.
abbrev pub MayLeave : Role → FieldClassificationMap → String → Type 0
MayLeave role classifications field =
    (policy : FieldPolicy) × (property classifications field ≡ own policy)
    × Memᴰ role (classification_matrix policy.classification)

abbrev is_misplaced : String → FieldPolicy → Bool
is_misplaced resource policy =
    is_telemetry policy.classification
    && (if contains security_telemetry_resources resource then false else true)

true-ne-false : true ≡ false → ⊥
true-ne-false h = cc

own_inj : {p q : FieldPolicy} → own p ≡ own q → p ≡ q
own_inj h = cc

own-ne_inherited : {p : FieldPolicy} → own p ≡ inherited → ⊥
own-ne_inherited h = cc

own-ne_absent : {p : FieldPolicy} → own p ≡ absent → ⊥
own-ne_absent h = cc

module _ {V : Type 0} where
  unclassified-ne : {a b : String} {r : ShapeResult V} → unclassified_field a b ≡ shaped r → ⊥
  unclassified-ne h = cc

  inherited-ne : {a : String} {r : ShapeResult V} → inherited_policy a ≡ shaped r → ⊥
  inherited-ne h = cc

  misplaced-ne :
      {a b : String} {r : ShapeResult V} → misplaced_security_telemetry a b ≡ shaped r → ⊥
  misplaced-ne h = cc

  shaped_inj : {q r : ShapeResult V} → shaped q ≡ shaped r → r ≡ q
  shaped_inj h = cc

module _ {V : Type 0} (placeholder : V) (resource : String) (role : Role)
    (classifications : FieldClassificationMap) where
  -- What a field that did not throw has been.
  record Passed (field : String) (raw : V) (rest : Shaped V) (r : ShapeResult V) : Type 0 where
    policy : FieldPolicy
    classified : property classifications field ≡ own policy
    placed : is_misplaced resource policy ≡ false
    tail : ShapeResult V
    later : rest ≡ shaped tail
    result : r ≡ add_field placeholder role field raw policy tail

  with_rest-shaped :
      (f : ShapeResult V → ShapeResult V) (rest : Shaped V) (r : ShapeResult V)
      → with_rest placeholder f rest ≡ shaped r
      → (tail : ShapeResult V) × (rest ≡ shaped tail) × (r ≡ f tail)
  with_rest-shaped f (shaped tail) r h = (tail, refl, cc)
  with_rest-shaped f (unclassified_field a b) r h = cc
  with_rest-shaped f (misplaced_security_telemetry a b) r h = cc
  with_rest-shaped f (inherited_policy a) r h = cc

  shape_field-Passed :
      (field : String) (raw : V) (p : Property FieldPolicy) (rest : Shaped V) (r : ShapeResult V)
      → property classifications field ≡ p
      → shape_field placeholder resource role field raw p rest ≡ shaped r
      → Passed field raw rest r
  shape_field-Passed field raw absent rest r e h = absurd (unclassified-ne h)
  shape_field-Passed field raw inherited rest r e h = absurd (inherited-ne h)
  shape_field-Passed field raw (own policy) rest r e h =
      elim (Bool-cases (is_misplaced resource policy)) [
        | inl misplaced ↦ absurd (misplaced-ne (rw misplaced at h))
        | inr placed ↦
            let (tail, later, result) =
              with_rest-shaped (add_field placeholder role field raw policy) rest r
                (rw placed at h) in
            record {
              policy = policy;
              classified = e;
              placed = placed;
              tail = tail;
              later = later;
              result = result;
            }
      ]

  abbrev readable : Property FieldPolicy → Bool
  readable (own policy) = is_readable role policy.classification
  readable inherited = false
  readable absent = false

  -- The test of one field, as a function of its name.
  leaves : String × V → Bool
  leaves e = readable (property classifications e.0)

  stays : String × V → Bool
  stays e = if readable (property classifications e.0) then false else true

  own-omits :
      (fields : FieldClassificationMap) (field : String) (policy : FieldPolicy)
      → OmitsAll fields
      → property fields field ≡ own policy
      → policy.disposition ≡ omit
  own-omits fields field policy omits h =
      All-mem (λ e. e.1.disposition ≡ omit) fields omits (own-mem fields field policy h)

  add_field-omit :
      (field : String) (raw : V) (policy : FieldPolicy) (tail : ShapeResult V)
      → policy.disposition ≡ omit
      → is_readable role policy.classification ≡ false
      → add_field placeholder role field raw policy tail
        ≡ record tail { withheld = field ∷ tail.withheld }
  add_field-omit field raw policy tail o h = rw (h, o)

  step-payload :
      (field : String) (raw : V) (value : List (String × V)) (policy : FieldPolicy)
      (tail r : ShapeResult V)
      → property classifications field ≡ own policy
      → policy.disposition ≡ omit
      → r ≡ add_field placeholder role field raw policy tail
      → tail.payload ≡ filter leaves value
      → tail.withheld ≡ map (λ e. e.0) (filter stays value)
      → (r.payload ≡ filter leaves ((field, raw) ∷ value))
        × (r.withheld ≡ map (λ e. e.0) (filter stays ((field, raw) ∷ value)))
  unfolding leaves stays
  step-payload field raw value policy tail r own' o e ihp ihw =
      elim (Bool-cases (is_readable role policy.classification)) [
        | inl yes' ↦ (rw (e, own', yes', ihp), rw (e, own', yes', ihw))
        | inr no' ↦ (rw (e, own', no', o, ihp), rw (e, own', no', o, ihw))
      ]

  shape_fields-payload :
      (value : List (String × V)) (r : ShapeResult V)
      → OmitsAll classifications
      → shape_fields placeholder resource role classifications value ≡ shaped r
      → (r.payload ≡ filter leaves value) × (r.withheld ≡ map (λ e. e.0) (filter stays value))
  unfolding shape_fields
  shape_fields-payload [] r omits h =
      (ap (λ x. x.payload) (shaped_inj h), ap (λ x. x.withheld) (shaped_inj h))
  shape_fields-payload ((field, raw) ∷ value) r omits h =
      let p =
        shape_field-Passed field raw (property classifications field)
          (shape_fields placeholder resource role classifications value) r refl h in
      let (ihp, ihw) = shape_fields-payload value p.tail omits p.later in
      step-payload field raw value p.policy p.tail r p.classified
        (own-omits classifications field p.policy omits p.classified) p.result ihp ihw

  leaves_iff :
      (field : String) (v : V) → (leaves (field, v) ≡ true) ↔ MayLeave role classifications field
  unfolding leaves
  leaves_iff field v = readable_iff (property classifications field) refl
    where
      readable_iff :
          (p : Property FieldPolicy)
          → property classifications field ≡ p
          → (readable p ≡ true) ↔ MayLeave role classifications field
      readable_iff (own policy) e = (
        λ h. (policy, e, (contains_iff (classification_matrix policy.classification) role).0 h),
        λ (q, e', m).
            let same : policy ≡ q = own_inj (sym e ∙ e') in
            rw same ((contains_iff (classification_matrix q.classification) role).1 m),
      )
      readable_iff inherited e = (
        λ h. absurd (true-ne-false (sym h)),
        λ (q, e', m). absurd (own-ne_inherited (sym e' ∙ e)),
      )
      readable_iff absent e =
          (λ h. absurd (true-ne-false (sym h)), λ (q, e', m). absurd (own-ne_absent (sym e' ∙ e)))

  -- Where every policy omits, the loop's payload has exactly those fields of the value, each with its
  -- own value, that are classified with a classification which the role may read.
  shape_fields-leave_iff :
      (value : List (String × V)) (r : ShapeResult V)
      → OmitsAll classifications
      → shape_fields placeholder resource role classifications value ≡ shaped r
      → (field : String) (v : V)
      → Memᴰ (field, v) r.payload ↔ (Memᴰ (field, v) value × MayLeave role classifications field)
  shape_fields-leave_iff value r omits h field v = rw (shape_fields-payload value r omits h).0 (
    λ m. let (a, b) = (mem-filter_iff leaves (field, v) value).0 m in (a, (leaves_iff field v).0 b),
    λ (a, b). (mem-filter_iff leaves (field, v) value).1 (a, (leaves_iff field v).1 b),
  )

  stays_iff :
      (field : String) (v : V) → (stays (field, v) ≡ true) ↔ (¬ MayLeave role classifications field)
  unfolding stays leaves
  stays_iff field v = elim (Bool-cases (readable (property classifications field))) [
    | inl a ↦ (λ h. absurd (ground (arith, a, h)), λ n. absurd (n ((leaves_iff field v).0 a)))
    | inr a ↦ (λ h m. absurd (ground (arith, a, (leaves_iff field v).1 m)), λ n. rw a refl)
  ]

  shape_fields-withheld_iff :
      (value : List (String × V)) (r : ShapeResult V)
      → OmitsAll classifications
      → shape_fields placeholder resource role classifications value ≡ shaped r
      → (field : String)
      → Memᴰ field r.withheld
        ↔ ((v : V) × Memᴰ (field, v) value × ¬ MayLeave role classifications field)
  shape_fields-withheld_iff value r omits h field = rw (shape_fields-payload value r omits h).1 (
    λ m.
        let ((k, v), inside, same) = mem_of_mem-map (λ e. e.0) field (filter stays value) m in
        let (held, out) = (mem-filter_iff stays (k, v) value).0 inside in
        rw same (v, held, (stays_iff k v).0 out),
    λ (v, m, n).
        mem-map (λ e. e.0) (filter stays value)
          ((mem-filter_iff stays (field, v) value).1 (m, (stays_iff field v).1 n)),
  )

-- Where every policy omits, and shaping returns, the payload has exactly those fields of the value,
-- each with its own value, that are classified with a classification which the caller's role may
-- read; and the withheld names are exactly those of the other fields of the value.
pub shape-payload_iff :
    {V : Type 0} (placeholder : V) (resource : String) (value : List (String × V))
    (classifications : FieldClassificationMap) (ctx : AuthorizationContext) (r : ShapeResult V)
    → OmitsAll classifications
    → shape placeholder resource value classifications ctx ≡ shaped r
    → ((field : String) (v : V)
        → Memᴰ (field, v) r.payload
          ↔ (Memᴰ (field, v) value × MayLeave ctx.role classifications field))
      × ((field : String)
          → Memᴰ field r.withheld
            ↔ ((v : V) × Memᴰ (field, v) value × ¬ MayLeave ctx.role classifications field))
unfolding shape
shape-payload_iff placeholder resource value classifications ctx r omits h =
    let (tail, e, same) =
      with_rest-shaped placeholder resource ctx.role classifications (sort_names placeholder)
        (shape_fields placeholder resource ctx.role classifications value) r h in
    (
      λ field v. rw same (
          shape_fields-leave_iff placeholder resource ctx.role classifications value tail omits e
            field v),
      λ field. rw same (
          let iff =
            shape_fields-withheld_iff placeholder resource ctx.role classifications value tail omits
              e field in
          (
            λ m. iff.0 (mem_of_perm (sort-perm text_before tail.withheld) m),
            λ p. mem_of_perm (Permᴰ.symm (sort-perm text_before tail.withheld)) (iff.1 p),
          )),
    )
