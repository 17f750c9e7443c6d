-- ===== src/Integration/IdentityHub/Resolution.antt =====
-- Each declared id has one mapping, so that no resolution is ambiguous, and the last declaration of
-- an id is the one that it resolves to.
use gldaassurance.Base.{
  Bool-cases, arith, ◌==◌, inl, ◌∷◌, inr, false, true, List, ◌≡◌, All, ==_iff, Bool, String, [],
  string_eq, ==_refl, ◌≢◌, ◌⊎◌, filter, refl, filter-none, ℕ,
}
use gldaassurance.Integration.IdentityHub.{
  is_keyed, declare_all, declare_mapping, store_mapping, IdentityMapping, blank, unresolved,
  not_mapped, resolve, ambiguous, resolved,
}

module _ (fold : String → String) where
  -- The two mappings are of one system and have one folded id.
  abbrev shares_key : IdentityMapping → IdentityMapping → Bool
  shares_key a b = is_keyed fold a.system (fold a.external_id) b

  -- No two mappings share a key.
  abbrev pub HasUniqueKeys : List IdentityMapping → Type 0
  HasUniqueKeys [] = Unit
  HasUniqueKeys (m ∷ ms) = All (λ x. shares_key m x ≡ false) ms × HasUniqueKeys ms

  All-store_mapping :
      (P : IdentityMapping → Type 0) (mapping : IdentityMapping) (ms : List IdentityMapping)
      → P mapping
      → All P ms
      → All P (store_mapping fold mapping ms)
  unfolding store_mapping
  All-store_mapping P mapping [] p h = (p, tt)
  All-store_mapping P mapping (m ∷ ms) p h = elim (Bool-cases (shares_key mapping m)) [
    | inl same ↦ rw same (p, h.1)
    | inr differs ↦ rw differs (h.0, All-store_mapping P mapping ms p h.1)
  ]

  shares_key_sym : (a b : IdentityMapping) → shares_key a b ≡ false → shares_key b a ≡ false
  shares_key_sym a b h = ground (
    arith,
    ==_iff a.system b.system,
    ==_iff b.system a.system,
    ==_iff (fold a.external_id) (fold b.external_id),
    ==_iff (fold b.external_id) (fold a.external_id),
  )

  shares_key_trans :
      (a b c : IdentityMapping)
      → shares_key a b ≡ true
      → shares_key b c ≡ false
      → shares_key a c ≡ false
  shares_key_trans a b c h k = ground (
    arith,
    ==_iff b.system a.system,
    ==_iff (fold b.external_id) (fold a.external_id),
    ==_iff c.system a.system,
    ==_iff c.system b.system,
    ==_iff (fold c.external_id) (fold a.external_id),
    ==_iff (fold c.external_id) (fold b.external_id),
  )

  All-shares_key :
      (a b : IdentityMapping) (ms : List IdentityMapping)
      → shares_key a b ≡ true
      → All (λ x. shares_key b x ≡ false) ms
      → All (λ x. shares_key a x ≡ false) ms
  All-shares_key a b [] h k = tt
  All-shares_key a b (m ∷ ms) h k = (shares_key_trans a b m h k.0, All-shares_key a b ms h k.1)

  store_mapping-HasUniqueKeys :
      (mapping : IdentityMapping) (ms : List IdentityMapping)
      → HasUniqueKeys ms
      → HasUniqueKeys (store_mapping fold mapping ms)
  unfolding store_mapping
  store_mapping-HasUniqueKeys mapping [] h = (tt, tt)
  store_mapping-HasUniqueKeys mapping (m ∷ ms) h = elim (Bool-cases (shares_key mapping m)) [
    | inl same ↦ rw same (All-shares_key mapping m ms same h.0, h.1)
    | inr differs ↦ rw differs (
      All-store_mapping (λ x. shares_key m x ≡ false) mapping ms (shares_key_sym mapping m differs)
          h.0,
      store_mapping-HasUniqueKeys mapping ms h.1,
    )
  ]

  declare_mapping-HasUniqueKeys :
      (ms : List IdentityMapping) (mapping : IdentityMapping)
      → HasUniqueKeys ms
      → HasUniqueKeys (declare_mapping fold ms mapping)
  unfolding declare_mapping
  declare_mapping-HasUniqueKeys ms mapping h = elim (Bool-cases (fold mapping.external_id == "")) [
    | inl empty' ↦ rw empty' h
    | inr named ↦ rw named (store_mapping-HasUniqueKeys mapping ms h)
  ]

  pub declare_all-HasUniqueKeys :
      (ms rest : List IdentityMapping) → HasUniqueKeys ms → HasUniqueKeys (declare_all fold ms rest)
  unfolding declare_all
  declare_all-HasUniqueKeys ms [] h = h
  declare_all-HasUniqueKeys ms (m ∷ rest) h =
      declare_all-HasUniqueKeys (declare_mapping fold ms m) rest
        (declare_mapping-HasUniqueKeys ms m h)

  keyed-shares :
      (m x : IdentityMapping) (system key : String)
      → is_keyed fold system key m ≡ true
      → shares_key m x ≡ false
      → is_keyed fold system key x ≡ false
  keyed-shares m x system key h k = ground (
    arith,
    ==_iff m.system system,
    ==_iff (fold m.external_id) key,
    ==_iff x.system system,
    ==_iff (fold x.external_id) key,
    ==_iff x.system m.system,
    ==_iff (fold x.external_id) (fold m.external_id),
  )

  All-keyed :
      (m : IdentityMapping) (ms : List IdentityMapping) (system key : String)
      → is_keyed fold system key m ≡ true
      → All (λ x. shares_key m x ≡ false) ms
      → All (λ x. is_keyed fold system key x ≡ false) ms
  All-keyed m [] system key h k = tt
  All-keyed m (x ∷ ms) system key h k =
      (keyed-shares m x system key h k.0, All-keyed m ms system key h k.1)

  -- With unique keys, a key has at most one match.
  filter-keyed :
      (ms : List IdentityMapping) (system key : String)
      → HasUniqueKeys ms
      → (filter (is_keyed fold system key) ms ≡ [])
        ⊎ ((m : IdentityMapping) × (filter (is_keyed fold system key) ms ≡ m ∷ []))
  filter-keyed [] system key h = inl refl
  filter-keyed (m ∷ ms) system key h = elim (Bool-cases (is_keyed fold system key m)) [
    | inl hit ↦
        let rest = filter-none (is_keyed fold system key) ms (All-keyed m ms system key hit h.0) in
        inr (m, rw (hit, rest))
    | inr miss ↦ rw miss (filter-keyed ms system key h.1)
  ]

  blank-ne_ambiguous : {n : ℕ} → unresolved blank 0 ≡ unresolved ambiguous n → ⊥
  blank-ne_ambiguous h = cc

  not_mapped-ne_ambiguous : {n : ℕ} → unresolved not_mapped 0 ≡ unresolved ambiguous n → ⊥
  not_mapped-ne_ambiguous h = cc

  resolved-ne_ambiguous :
      {n : ℕ} {p : String} {m : IdentityMapping} → resolved p m ≡ unresolved ambiguous n → ⊥
  resolved-ne_ambiguous h = cc

  -- Whatever mappings were declared, no id resolves as ambiguous.
  pub resolve-never_ambiguous :
      (declared : List IdentityMapping) (system external_id : String) (n : ℕ)
      → resolve fold (declare_all fold [] declared) system external_id ≢ unresolved ambiguous n
  unfolding resolve
  resolve-never_ambiguous declared system external_id n h =
      elim (Bool-cases (fold external_id == "")) [
        | inl empty' ↦ blank-ne_ambiguous (rw (resolve, empty') at h)
        | inr named ↦
            elim (filter-keyed (declare_all fold [] declared) system (fold external_id)
              (declare_all-HasUniqueKeys [] declared tt)) [
                | inl missing ↦ not_mapped-ne_ambiguous (rw (resolve, named, missing) at h)
                | inr (m, found) ↦ resolved-ne_ambiguous (rw (resolve, named, found) at h)
              ]
      ]

  self-keyed : (m : IdentityMapping) → is_keyed fold m.system (fold m.external_id) m ≡ true
  self-keyed m = rw (==_refl m.system, ==_refl (fold m.external_id))

  filter-store_mapping :
      (mapping : IdentityMapping) (ms : List IdentityMapping)
      → HasUniqueKeys ms
      → filter
          (is_keyed fold mapping.system (fold mapping.external_id))
          (store_mapping fold mapping ms)
        ≡ mapping ∷ []
  unfolding store_mapping
  filter-store_mapping mapping [] h = rw (self-keyed mapping)
  filter-store_mapping mapping (m ∷ ms) h = elim (Bool-cases (shares_key mapping m)) [
    | inl same ↦
        let rest =
          filter-none (is_keyed fold mapping.system (fold mapping.external_id)) ms
            (All-shares_key mapping m ms same h.0) in
        rw (store_mapping, same, self-keyed mapping, rest)
    | inr differs ↦ rw (store_mapping, differs, differs) (filter-store_mapping mapping ms h.1)
  ]

  -- After a declaration with an id that is not blank, the id, as the system writes it, resolves to
  -- the project that was declared, whatever was declared before.
  pub declare_mapping-resolves :
      (declared : List IdentityMapping) (mapping : IdentityMapping)
      → (fold mapping.external_id == "") ≡ false
      → resolve fold
          (declare_mapping fold (declare_all fold [] declared) mapping)
          mapping.system
          mapping.external_id
        ≡ resolved mapping.mapped_project mapping
  unfolding resolve declare_mapping
  declare_mapping-resolves declared mapping named =
      let only =
        filter-store_mapping mapping (declare_all fold [] declared)
          (declare_all-HasUniqueKeys [] declared tt) in
      rw (declare_mapping, named, only)
