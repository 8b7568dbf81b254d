-- ===== src/Tests/Runs.antt =====
-- All that a run of a service computes through.
use idp_be.Prelude.{includes, filterb}
use idp_be.Exec.{
  ◌>>=◌, throw_if, for_each_throw_if, optional, catch, require_text, or_throw, pure, throw,
}
use idp_be.Redis
use idp_be.Database.{query, statement}
use idp_be.Random.{random_bytes, random_int, random_uuid, hash_password, strip_symbols}
use idp_be.Outbox.{get_url, picture_url, send_email, send_message, delete_object}
use idp_be.Verify.Digits.{decimal, zeros, pad_start, six_digits}
use idp_be.Verify.Service as VerifyService
use idp_be.User.Repository as UserRepository
use idp_be.User.Service as UserService
use idp_be.Client.Repository as ClientRepository
use idp_be.Client.Service as ClientService
use idp_be.Client.RoleGuard
use idp_be.Auth.Repository as AuthRepository
use idp_be.Auth.Service as AuthService
use idp_be.Oauth.Repository
use idp_be.Oauth.Service

unfoldable pub runs : Unit {0}
unfolding Service.consent Service.authorize Service.generate_opaque_token Service.code_grant
    Service.issue_refresh_token Service.sign_id_token Service.refresh_token_grant
    Service.sign_refreshed_id_token Service.client_credentials_grant Service.revoke
    Service.find_token_user Service.userinfo Repository.find_refresh_token_by_token
    Repository.create_refresh_token Repository.delete_refresh_token_by_token Repository.find_consent
    Repository.upsert_consent Redis.cache_key Redis.get Redis.get_or_throw Redis.set Redis.del query
    statement random_bytes random_int random_uuid hash_password strip_symbols get_url picture_url
    send_email delete_object decimal zeros pad_start six_digits UserRepository.find_user_by_uuid
    UserRepository.find_user_by_email UserRepository.create_user UserRepository.get_authenticator
    UserRepository.update_passkey UserRepository.delete_passkey UserService.find_user_by_uuid
    UserService.check_verification UserService.require_verification UserService.register
    UserService.update_passkey UserService.delete_passkey UserService.ends_with
    VerifyService.send_email_code VerifyService.send_phone_code send_message VerifyService.use_code
    VerifyService.sign_verification VerifyService.validate_entry VerifyService.validate_code
    VerifyService.validate_jwt_token ClientRepository.find_client_by_uuid
    ClientRepository.update_own_client ClientRepository.update_client
    ClientRepository.add_member_to_client ClientRepository.set_role_to_user
    ClientRepository.transfer_ownership ClientRepository.remove_member_from_client
    ClientRepository.get_user_client_role ClientService.get_client_by_uuid ClientService.add_member
    ClientService.remove_member ClientService.set_role ClientService.update_client
    RoleGuard.check_membership RoleGuard.can_activate AuthRepository.find_user_by_uuid
    AuthRepository.find_user_by_email AuthService.generate_opaque_token AuthService.issue_tokens
    AuthService.login AuthService.logout AuthService.detached AuthService.refresh ◌>>=◌ throw_if
    for_each_throw_if optional catch require_text or_throw pure throw includes filterb
    AuthRepository.find_authenticator AuthRepository.update_passkey_counter
    AuthService.verify_response AuthService.verify_authentication UserRepository.update_user
    UserRepository.update_phone_number UserRepository.update_user_password
    UserService.verify_phone_number UserService.change_password UserService.issue_password
    ClientRepository.create_client ClientRepository.update_client_secret
    ClientService.generate_client_secret ClientService.register_client
    ClientService.reset_client_secret
runs = tt
