-- ===== src/Tests/ApiRuns.antt =====
-- What a run of a controller computes through, beside the services.
use idp_be.Api.Http.{split, validate, user_guard, member_guard, basic_auth}
use idp_be.Api.Split.{lacks}
use idp_be.Api.Scope.{checked_words, parse_scope}
use idp_be.Api.OauthController
use idp_be.Api.AuthController
use idp_be.Api.ClientController
use idp_be.Api.UserController
use idp_be.Api.Bodies.{gist_email, email_of, send_email_code}
use idp_be.Auth.Service as AuthService

unfoldable pub api_runs : Unit {0}
unfolding split validate user_guard member_guard basic_auth lacks checked_words parse_scope
    OauthController.token AuthController.login ClientController.add_member
    AuthService.find_user_by_uuid ClientController.remove_member ClientController.set_role
    gist_email email_of send_email_code UserController.send_email_certification_code
api_runs = tt
