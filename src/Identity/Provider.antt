-- ===== src/Identity/Provider.antt =====
-- src/contexts/identity/internal/identity-provider.ts, `MockIdentityProvider` and
-- `assertDemoEnvironment`.
pub mod Verification
use gldaassurance.Base.{
  if◌then◌else◌, List, put, Bool, none, get, contains, [], true, Option, ◌∷◌, String, string_eq,
}
use gldaassurance.Access.Types.{Role, ScopeNode}

-- The fields of a `User` that the provider reads.
pub record User : Type 0 where
  pub user_actor : String
  pub username : String
  pub display_name : String
  pub user_role : Role
  pub user_scope : List ScopeNode

pub data AuthenticationMethod : Type 0 where
  synthetic_persona oidc impersonation : AuthenticationMethod

pub record VerifiedSubject : Type 0 where
  pub subject_actor : String
  pub subject_name : String
  pub subject_display : String
  pub subject_role : Role
  pub subject_scope : List ScopeNode
  pub authentication_method : AuthenticationMethod
  pub issuer : Option String

-- The subject that the constructor makes of a user.
abbrev pub subject_of : User → VerifiedSubject
subject_of u = record {
  subject_actor = u.user_actor;
  subject_name = u.username;
  subject_display = u.display_name;
  subject_role = u.user_role;
  subject_scope = u.user_scope;
  authentication_method = synthetic_persona;
  issuer = none;
}

-- `MockIdentityProvider`
pub record MockProvider : Type 0 where
  pub by_username : List (String × VerifiedSubject)
  pub by_actor_id : List (String × VerifiedSubject)

-- The loop of the constructor.
unfoldable pub add_users : MockProvider → List User → MockProvider
add_users provider [] = provider
add_users provider (u ∷ users) =
    add_users
      (record {
        by_username = put u.username (subject_of u) provider.by_username;
        by_actor_id = put u.user_actor (subject_of u) provider.by_actor_id;
      })
      users

-- The constructor.
unfoldable pub new_provider : List User → MockProvider
unfolding add_users
new_provider users = add_users (record { by_username = []; by_actor_id = [] }) users

-- `verify`
abbrev pub verify : MockProvider → String → Option VerifiedSubject
verify provider credential = get provider.by_username credential

-- `findByActorId`
abbrev pub find_by_actor_id : MockProvider → String → Option VerifiedSubject
find_by_actor_id provider actor_id = get provider.by_actor_id actor_id

pub data ProviderKind : Type 0 where
  synthetic oidc_kind : ProviderKind

-- `assertDemoEnvironment`, with the permitted environments of the policy; `false` where it throws.
unfoldable pub assert_demo_environment : ProviderKind → String → List String → Bool
assert_demo_environment synthetic environment permitted = contains permitted environment
assert_demo_environment oidc_kind environment permitted = true
