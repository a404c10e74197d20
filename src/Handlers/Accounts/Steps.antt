-- ===== src/Handlers/Accounts/Steps.antt =====
-- Each handler of /api/v1/auth and /api/v1/accounts in src/main.cpp makes at most one call of the account
-- manager.
use iot_dev_sys.Handlers.{rest_of}
use iot_dev_sys.Handlers.Via.{Via, threw, only_answered, made, Via-or_thrown, Via-option, Via-if}
use iot_dev_sys.Api.{HttpRequest}
use iot_dev_sys.Common.{String}
use iot_dev_sys.Common.Int.{ℤ, pos}
use iot_dev_sys.Json.{get_string, get_int, stoi}
use iot_dev_sys.Account.Calls
use iot_dev_sys.Org.{OrgManager}
use iot_dev_sys.Account.{AccountManager, Verdict, refused, granted, get_account, verify_token}
use iot_dev_sys.Handlers.Orgs.{number_after}
use iot_dev_sys.Handlers.Auth.{
  bearer, credentials, post_login, post_logout, profile_of, get_profile,
}
use iot_dev_sys.Handlers.Accounts.{
  account_by_id, post_account, posted, changed, without_end, path_number, between, put_password,
  put_account, delete_account_by_id,
}

module _ (hex_hash : String → String) (orgs : OrgManager) (epoch later : ℤ) (now : String)
    (req : HttpRequest) (s : AccountManager) where
  pub post_login-Via : Via (Calls.next hex_hash) s (post_login hex_hash epoch later now req s)
  unfolding post_login Calls.next
  post_login-Via =
      Via-if (Calls.next hex_hash) s _ _ _ (only_answered _)
        (made _ (Calls.enter epoch later now (credentials req)))

  pub post_logout-Via : Via (Calls.next hex_hash) s (post_logout req s)
  unfolding post_logout Calls.next
  post_logout-Via = made _ (Calls.leave _)

  profile_of-Via : (v : Verdict) → Via (Calls.next hex_hash) s (profile_of s v)
  profile_of-Via Verdict.thrown = threw
  profile_of-Via refused = only_answered _
  profile_of-Via (granted tp) =
      Via-option (Calls.next hex_hash) s (get_account tp.account_id s) _ _ (only_answered _)
        (λ a. only_answered _)

  pub get_profile-Via : Via (Calls.next hex_hash) s (get_profile orgs epoch req s)
  unfolding get_profile
  get_profile-Via =
      Via-if (Calls.next hex_hash) s _ _ _ (only_answered _)
        (profile_of-Via (verify_token orgs epoch (bearer req) s))

  pub account_by_id-Via : Via (Calls.next hex_hash) s (account_by_id req s)
  unfolding account_by_id
  account_by_id-Via =
      Via-or_thrown (Calls.next hex_hash) s (number_after "/api/v1/accounts/" req) _ (λ i.
        Via-option (Calls.next hex_hash) s (get_account i s) _ _ (only_answered _)
          (λ a. only_answered _))

  pub post_account-Via : Via (Calls.next hex_hash) s (post_account hex_hash orgs now req s)
  unfolding post_account Calls.next
  post_account-Via =
      Via-or_thrown (Calls.next hex_hash) s (get_int req.body "org_id" (pos 0)) _ (λ i.
        Via-if (Calls.next hex_hash) s _ _ _ (only_answered _)
          (made _ (Calls.create orgs now (posted req i) (get_string req.body "password"))))

  pub put_password-Via : Via (Calls.next hex_hash) s (put_password hex_hash req s)
  unfolding put_password Calls.next
  put_password-Via =
      Via-option (Calls.next hex_hash) s (without_end "/password" req.path) _ _ (only_answered _)
        (λ f.
          Via-or_thrown (Calls.next hex_hash) s
            (path_number (between "/api/v1/accounts/" "/password" req)) _
            (λ i. Via-if (Calls.next hex_hash) s _ _ _ (only_answered _) (
              made _ (
                Calls.set_password i (get_string req.body "old_password")
                  (get_string req.body "new_password")))))

  pub put_account-Via : Via (Calls.next hex_hash) s (put_account now req s)
  unfolding put_account Calls.next
  put_account-Via = Via-or_thrown (Calls.next hex_hash) s (rest_of "/api/v1/accounts/" req) _ (λ t.
      Via-if (Calls.next hex_hash) s _ _ _ (only_answered _) (
        Via-or_thrown (Calls.next hex_hash) s (stoi t) _
          (λ i. made _ (Calls.update now i (changed req)))))

  pub delete_account_by_id-Via : Via (Calls.next hex_hash) s (delete_account_by_id req s)
  unfolding delete_account_by_id Calls.next
  delete_account_by_id-Via =
      Via-or_thrown (Calls.next hex_hash) s (number_after "/api/v1/accounts/" req) _
        (λ i. made _ (Calls.delete i))
