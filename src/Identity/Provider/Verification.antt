-- ===== src/Identity/Provider/Verification.antt =====
-- Whom the provider verifies.
use gldaassurance.Base.{
  get-put, put, Bool-cases, inr, ◌≡◌, List, ◌⊎◌, some_inj, sym, [], refl, inl, Memᴰ, ==_iff, ◌∷◌,
  String, some, ◌==◌, none-ne-some, string_eq, get,
}
use gldaassurance.Identity.Provider.{
  new_provider, VerifiedSubject, MockProvider, subject_of, verify, User, add_users,
}

-- A lookup in the maps after the loop finds a user of the list, or what was there before.
add_users-verify :
    (provider : MockProvider) (users : List User) (credential : String) (s : VerifiedSubject)
    → verify (add_users provider users) credential ≡ some s
    → ((u : User) × Memᴰ u users × (u.username ≡ credential) × (s ≡ subject_of u))
      ⊎ (verify provider credential ≡ some s)
unfolding add_users
add_users-verify provider [] credential s h = inr h
add_users-verify provider (u ∷ users) credential s h =
    let next : MockProvider = record {
      by_username = put u.username (subject_of u) provider.by_username;
      by_actor_id = put u.user_actor (subject_of u) provider.by_actor_id;
    } in
    elim (add_users-verify next users credential s h) [
      | inl (w, m, e, same) ↦ inl (w, Memᴰ.tail m, e, same)
      | inr before' ↦ elim (Bool-cases (u.username == credential)) [
        | inl hit ↦ inl (
          u,
          Memᴰ.head refl,
          (==_iff u.username credential).0 hit,
          sym (
              some_inj (subject_of u) s (
                rw (get-put u.username credential (subject_of u) provider.by_username, hit) at
                  before')),
        )
        | inr miss ↦ inr (
            rw (get-put u.username credential (subject_of u) provider.by_username, miss) at before')
      ]
    ]

-- The provider verifies a credential only as the user name of one of its users, and the subject is
-- that user, marked as a synthetic persona.
pub verify-some :
    (users : List User) (credential : String) (s : VerifiedSubject)
    → verify (new_provider users) credential ≡ some s
    → (u : User) × Memᴰ u users × (u.username ≡ credential) × (s ≡ subject_of u)
unfolding new_provider get
verify-some users credential s h =
    elim (add_users-verify (record { by_username = []; by_actor_id = [] }) users credential s h) [
      | inl found ↦ found
      | inr empty' ↦ absurd (none-ne-some s empty')
    ]
