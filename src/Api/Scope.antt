-- ===== src/Api/Scope.antt =====
-- The `@Transform` functions of src/oauth/dto/req.dto.ts: scopes as one text with spaces, and the
-- values that requests must name.
use idp_be.Prelude.{
  ◌≡◌, refl, ap, ◌∙◌, String, Bool, true, Option, none, some, List, [], ◌∷◌, ◌++◌, ◌==◌, includes,
  every, every-includes, and→both, ◌&&◌, arith, if◌then◌else◌,
}
use idp_be.Exec.{
  Result, ok, err, Exception, AuthorizeError, TokenError, oauth_authorize, oauth_token,
}
use idp_be.Oauth.Types.{client_scope_list, token_scope_list}
use idp_be.Oauth.Service.{join_words}
use idp_be.Api.Http.{split}
use idp_be.Api.Split.{lacks, split-join_words}

-- `ScopeList`
abbrev pub scope_list : List String
scope_list = client_scope_list ++ token_scope_list

-- `GrantTypeList`
abbrev pub grant_type_list : List String
grant_type_list = "authorization_code" ∷ "client_credentials" ∷ "refresh_token" ∷ []

abbrev pub onto : String → Result Exception (List String) → Result Exception (List String)
onto word (ok words) = ok (word ∷ words)
onto word (err e) = err e

-- `words.map((v) => { if (allowed.includes(v)) return v; throw e; })`
unfoldable pub checked_words :
    (allowed : List String) → Exception → List String → Result Exception (List String)
checked_words allowed e [] = ok []
checked_words allowed e (word ∷ words) =
    let rest = checked_words allowed e words in
    if includes word allowed then onto word rest else err e

-- The scope of a body or a query; a value that is no text is refused.
unfoldable pub parse_scope :
    (allowed : List String) → Exception → Option String → Result Exception (List String)
unfolding checked_words split
parse_scope allowed e none = err e
parse_scope allowed e (some value) = checked_words allowed e (split b' ' value)

-- `ConsentReqDto`, `AuthorizationReqDto` and `TokenReqDto`
abbrev pub consent_scope : Option String → Result Exception (List String)
consent_scope = parse_scope client_scope_list (oauth_authorize AuthorizeError.invalid_scope)

abbrev pub authorization_scope : Option String → Result Exception (List String)
authorization_scope = parse_scope scope_list (oauth_authorize AuthorizeError.invalid_scope)

abbrev pub token_scope : Option String → Result Exception (List String)
token_scope = parse_scope scope_list (oauth_token TokenError.invalid_scope)

abbrev pub response_type : String → Result Exception String
response_type value =
    if value == "code"
    then ok value
    else err (oauth_authorize AuthorizeError.unsupported_response_type)

abbrev pub grant_type : String → Result Exception String
grant_type value =
    if includes value grant_type_list
    then ok value
    else err (oauth_token TokenError.unsupported_grant_type)

known_word : {A : Type 0} (b : Bool) (x y : A) → b ≡ true → (if b then x else y) ≡ x
known_word b x y h = ground arith

checked_words-ok :
    (allowed : List String) (e : Exception) (words : List String)
    → every (λ w. includes w allowed) words ≡ true
    → checked_words allowed e words ≡ ok words
unfolding checked_words
checked_words-ok allowed e [] h = refl
checked_words-ok allowed e (word ∷ words) h =
    let (known, rest) = and→both _ _ h in
    known_word (includes word allowed) (onto word (checked_words allowed e words)) (err e) known
    ∙ ap (onto word) (checked_words-ok allowed e words rest)

both→and : {a b : Bool} → a ≡ true → b ≡ true → (a && b) ≡ true
both→and h h' = ground arith

every_lacking :
    (allowed words : List String)
    → every (lacks b' ') allowed ≡ true
    → every (λ w. includes w allowed) words ≡ true
    → every (lacks b' ') words ≡ true
every_lacking allowed [] clean h = refl
every_lacking allowed (word ∷ words) clean h =
    let (known, rest) = and→both _ _ h in
    both→and (every-includes (lacks b' ') allowed word clean known)
      (every_lacking allowed words clean rest)

-- Scopes that a request DTO allows, at least one, and joined by spaces as `TokenResDto` joins them,
-- are read back as they are, where no allowed scope has a space in it.
pub parse_scope-join_words :
    (allowed : List String) (e : Exception) (scope : String) (scopes : List String)
    → every (lacks b' ') allowed ≡ true
    → every (λ s. includes s allowed) (scope ∷ scopes) ≡ true
    → parse_scope allowed e (some (join_words (scope ∷ scopes))) ≡ ok (scope ∷ scopes)
unfolding parse_scope
parse_scope-join_words allowed e scope scopes clean known =
    ap (checked_words allowed e)
      (split-join_words scope scopes (every_lacking allowed (scope ∷ scopes) clean known))
    ∙ checked_words-ok allowed e (scope ∷ scopes) known
