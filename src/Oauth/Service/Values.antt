-- ===== src/Oauth/Service/Values.antt =====
-- The constants, the claims and the texts that src/oauth/oauth.service.ts builds without a state.
use idp_be.Prelude.{
  ℕ, ◌*◌, String, ◌⋆◌, Option, none, some, List, [], ◌∷◌, ◌==◌, includes, if◌then◌else◌,
}
use idp_be.Schema.{User}
use idp_be.Platform.{IdTokenClaims}

-- `CodePrefix` and `TokenPrefix`
abbrev pub code_prefix : String
code_prefix = "code"

abbrev pub token_prefix : String
token_prefix = "token"

-- 10 minutes, 3 hours and 3 months, in seconds
abbrev pub code_ttl : ℕ
code_ttl = 10 * 60

abbrev pub access_token_ttl : ℕ
access_token_ttl = 3 * 60 * 60

abbrev pub three_months : ℕ
three_months = 3 * 30 * 24 * 60 * 60

-- `xs.join(' ')`
abbrev pub join_words : List String → String
join_words [] = ""
join_words (x ∷ []) = x
join_words (x ∷ y ∷ r) = x ⋆ (" " ⋆ join_words (y ∷ r))

-- `scope.includes(name) ? value : undefined`
abbrev pub claim {ℓ} : {A : Type ℓ} → List String → String → A → Option A
claim scope name value = if includes name scope then some value else none

-- The claims of an id token, as both grants build them.
abbrev pub id_token_claims :
    (sub aud : String) → (nonce : Option String) → List String → User → IdTokenClaims
id_token_claims sub aud nonce scope user = record {
  sub = sub;
  aud = aud;
  nonce = nonce;
  scope = join_words scope;
  profile = claim scope "profile" user.profile;
  picture = claim scope "profile" user.picture;
  name = claim scope "profile" user.name;
  email = claim scope "email" user.email;
  student_id = claim scope "student_id" user.student_id;
  phone_number = claim scope "phone_number" user.phone_number;
}

-- `state ? `&state=${state}` : ''`
abbrev pub state_part : Option String → String
state_part none = ""
state_part (some s) = if s == "" then "" else "&state=" ⋆ s
