-- ===== src/Account/Login.antt =====
-- `login` and the passwords of src/app/organization/account_manager.cpp.
use iot_dev_sys.Common.{
  ◌≡◌, ◌≢◌, ◌↔◌, refl, sym, ◌∙◌, subst, String, Bool, true, false, ◌&&◌, List, [], ◌∷◌, map, ◌==◌,
  none, some, arith, inl, inr, Option-cases, find_if, select, All, text_iff,
}
use iot_dev_sys.Common.Int.{ℤ, pos, ◌+ℤ◌, ◌≤ℤ◌, int_iff}
use iot_dev_sys.Common.Keyed.{find-above, find-keyed, find-update_if}
use iot_dev_sys.Common.Named.{Distinct, find-named, Distinct-update_if}
use iot_dev_sys.Json.Numbers.{IsInt, IsLong}
use iot_dev_sys.Status.{ok}
use iot_dev_sys.Types.Account.{new_response, new_account, AccountInfo, LoginRequest, TokenPayload}
use iot_dev_sys.Org.{OrgManager}
use iot_dev_sys.Account.{
  AccountManager, granted, has_id, has_username, hidden, get_account, get_account_by_username,
  change, lifetime, generate_token, admit, payload_of, verify_token, login, logged_in,
  hash_password, change_password, with_hash, delete_account, deactivated, list_accounts, is_listed,
}
use iot_dev_sys.Account.Calls.{IsValid, id, username}
use iot_dev_sys.Account.Granted.{Grants, verify_token-granted}
use iot_dev_sys.Account.Tokens.{is_invalidated, verify_token-generate_token}

-- What a login with the right password of an active account needs.
abbrev pub IsAllowed : (String → String) → LoginRequest → AccountInfo → Type 0
IsAllowed hex_hash req a =
    (a.is_active ≡ true) × ((a.password_hash == hash_password hex_hash req.password) ≡ true)

success_missing :
    (hex_hash : String → String) (epoch t : ℤ) (now : String) (req : LoginRequest)
    (s : AccountManager)
    → get_account_by_username req.username s ≡ none
    → (login hex_hash epoch t now req s).1.success ≡ false
unfolding login new_response
success_missing hex_hash epoch t now req s miss = rw (miss, login) refl

pub success_found :
    (hex_hash : String → String) (epoch t : ℤ) (now : String) (req : LoginRequest)
    (s : AccountManager) (a : AccountInfo)
    → get_account_by_username req.username s ≡ some a
    → (login hex_hash epoch t now req s).1.success
      ≡ (a.is_active && a.password_hash == hash_password hex_hash req.password)
unfolding login new_response
success_found hex_hash epoch t now req s a hit = ground (arith, hit)

-- A login succeeds exactly for an active account of that username whose stored hash is the one of the
-- password that was given.
pub login-success :
    (hex_hash : String → String) (epoch t : ℤ) (now : String) (req : LoginRequest)
    (s : AccountManager)
    → ((login hex_hash epoch t now req s).1.success ≡ true) ↔ (
        (a : AccountInfo) × (get_account_by_username req.username s ≡ some a)
        × IsAllowed hex_hash req a)
login-success hex_hash epoch t now req s =
    elim (Option-cases (get_account_by_username req.username s)) [
      | inl miss ↦ (
        λ e. absurd (cc (e, success_missing hex_hash epoch t now req s miss)),
        λ w. absurd (cc (w.1, miss)),
      )
      | inr (a, hit) ↦ (
        λ e. (a, hit, ground (arith, e, success_found hex_hash epoch t now req s a hit)),
        λ w. ground (arith, w.2, success_found hex_hash epoch t now req s w.0 w.1),
      )
    ]

-- The state and the token after a login that succeeds.
pub login_lem :
    (hex_hash : String → String) (epoch t : ℤ) (now : String) (req : LoginRequest)
    (s : AccountManager) (a : AccountInfo)
    → get_account_by_username req.username s ≡ some a
    → IsAllowed hex_hash req a
    → ((login hex_hash epoch t now req s).0 ≡ change a.account_id (logged_in now) s)
      × ((login hex_hash epoch t now req s).1.token ≡ generate_token epoch a)
unfolding login new_response
login_lem hex_hash epoch t now req s a found allowed =
    (ground (arith, found, allowed), ground (arith, found, allowed))

pub changed_found :
    (f : AccountInfo → AccountInfo) (i : ℤ) (s : AccountManager) (a : AccountInfo)
    → ((x : AccountInfo) → id (f x) ≡ id x)
    → find_if (has_id i) s.accounts ≡ some a
    → find_if (has_id i) (change i f s).accounts ≡ some (f a)
changed_found f i s a keep found =
    find-update_if id f i i s.accounts keep ∙ ground (arith, found, int_iff i i)

pub account_id-positive :
    (s : AccountManager) (i : ℤ) (a : AccountInfo)
    → IsValid s
    → find_if (has_id i) s.accounts ≡ some a
    → pos 0 ≤ℤ i
account_id-positive s i a v found =
    ground (arith, found, find-above id i (pos 0) s.accounts v.ascends)

admit_found :
    (orgs : OrgManager) (now i exp : ℤ) (s : AccountManager) (a : AccountInfo)
    → now ≤ℤ exp
    → find_if (has_id i) s.accounts ≡ some a
    → a.is_active ≡ true
    → admit orgs now i exp s ≡ granted (payload_of orgs now exp a)
unfolding admit get_account
admit_found orgs now i exp s a le found active = ground (arith, found, active)

-- In a valid manager, the token that a successful login answers is granted until its 24 hours are
-- over, with the fields of the account, in the state that the login leaves; if the id of the
-- account is an `int`, the time fits 64 bits, and the same text has not been logged out before.
pub login-verify_token :
    (hex_hash : String → String) (orgs : OrgManager) (epoch t : ℤ) (now : String)
    (req : LoginRequest) (s : AccountManager) (a : AccountInfo) (later : ℤ)
    → IsValid s
    → get_account_by_username req.username s ≡ some a
    → (login hex_hash epoch t now req s).1.success ≡ true
    → IsInt a.account_id
    → IsLong (epoch +ℤ lifetime)
    → is_invalidated (generate_token epoch a) s ≡ false
    → later ≤ℤ epoch +ℤ lifetime
    → verify_token orgs later
        (login hex_hash epoch t now req s).1.token
        (login hex_hash epoch t now req s).0
      ≡ granted (payload_of orgs later (epoch +ℤ lifetime) a)
login-verify_token hex_hash orgs epoch t now req s a later v found success i l fresh time =
    (let allowed : IsAllowed hex_hash req a =
        ground (arith, success, success_found hex_hash epoch t now req s a found) in
      let known : find_if (has_id a.account_id) s.accounts ≡ some a =
        find-keyed id (has_username req.username) (pos 0) s.accounts a v.ascends
          (unfold get_account_by_username in found) in
      rw
        (
          (login_lem hex_hash epoch t now req s a found allowed).0,
          (login_lem hex_hash epoch t now req s a found allowed).1,
        )
        (verify_token-generate_token orgs later epoch a (change a.account_id (logged_in now) s)
            (account_id-positive s a.account_id a v known) i l
          ∙ rw fresh (
              admit_found orgs later a.account_id (epoch +ℤ lifetime)
                (change a.account_id (logged_in now) s) (logged_in now a) time
                (changed_found (logged_in now) a.account_id s a (λ x. refl) known) allowed.0)))

All-hidden : (xs : List AccountInfo) → All (λ a. a.password_hash ≡ "") (map hidden xs)
All-hidden [] = tt
All-hidden (a ∷ xs) = (refl, All-hidden xs)

get_account-hidden :
    (i : ℤ) (s : AccountManager) (a : AccountInfo) → get_account i s ≡ some a → a.password_hash ≡ ""
unfolding get_account
get_account-hidden i s a e = elim (Option-cases (find_if (has_id i) s.accounts)) [
  | inl miss ↦ absurd (cc (e, miss))
  | inr (b, hit) ↦ ground (arith, e, hit)
]

login-hidden :
    (hex_hash : String → String) (epoch t : ℤ) (now : String) (req : LoginRequest)
    (s : AccountManager)
    → (login hex_hash epoch t now req s).1.account.password_hash ≡ ""
unfolding login new_response new_account
login-hidden hex_hash epoch t now req s = ground arith

-- No answer to a caller holds a hash: neither the listed accounts, nor one that is asked for, nor the
-- account in the answer to a login.
answers-hidden :
    (org_id : ℤ) (role_code : String) (active_only : Bool) (i : ℤ) (hex_hash : String → String)
    (epoch t : ℤ) (now : String) (req : LoginRequest) (s : AccountManager)
    → All (λ a. a.password_hash ≡ "") (list_accounts org_id role_code active_only s)
      × ((a : AccountInfo) → get_account i s ≡ some a → a.password_hash ≡ "")
      × ((login hex_hash epoch t now req s).1.account.password_hash ≡ "")
unfolding list_accounts
answers-hidden org_id role_code active_only i hex_hash epoch t now req s = (
  All-hidden (select (is_listed org_id role_code active_only) s.accounts),
  get_account-hidden i s,
  login-hidden hex_hash epoch t now req s,
)

found_by_username :
    (p : AccountInfo → Bool) (s : AccountManager) (a : AccountInfo)
    → Distinct username s.accounts
    → find_if p s.accounts ≡ some a
    → get_account_by_username a.username s ≡ some a
unfolding get_account_by_username
found_by_username p s a d found = find-named username p s.accounts a d found

change_password_lem :
    (hex_hash : String → String) (i : ℤ) (old_password new_password : String) (s : AccountManager)
    (a : AccountInfo)
    → find_if (has_id i) s.accounts ≡ some a
    → (change_password hex_hash i old_password new_password s).status ≡ ok
    → (change_password hex_hash i old_password new_password s).state
      ≡ change i (with_hash (hash_password hex_hash new_password)) s
unfolding change_password
change_password_lem hex_hash i old_password new_password s a found done =
    ground (arith, found, done)

-- After a password was changed in a valid manager, the login with the new one succeeds, if the
-- account is active.
change_password-login :
    (hex_hash : String → String) (i epoch t : ℤ) (now old_password new_password : String)
    (s : AccountManager) (a : AccountInfo)
    → IsValid s
    → find_if (has_id i) s.accounts ≡ some a
    → (change_password hex_hash i old_password new_password s).status ≡ ok
    → a.is_active ≡ true
    → (login hex_hash epoch t now
        (record { username = a.username; password = new_password })
        (change_password hex_hash i old_password new_password s).state).1.success
      ≡ true
change_password-login hex_hash i epoch t now old_password new_password s a v found done active =
    (let f : AccountInfo → AccountInfo = with_hash (hash_password hex_hash new_password) in
      let there : get_account_by_username a.username (change i f s) ≡ some (f a) =
        found_by_username (has_id i) (change i f s) (f a)
          (Distinct-update_if username (has_id i) f s.accounts (λ x. refl) v.usernames)
          (changed_found f i s a (λ x. refl) found) in
      rw (change_password_lem hex_hash i old_password new_password s a found done) (
        success_found hex_hash epoch t now
          (record { username = a.username; password = new_password }) (change i f s) (f a) there
        ∙ ground (
          arith,
          active,
          text_iff (hash_password hex_hash new_password) (hash_password hex_hash new_password),
        )))

delete_account_missing :
    (i : ℤ) (s : AccountManager)
    → find_if (has_id i) s.accounts ≡ none
    → (delete_account i s).status ≢ ok
unfolding delete_account
delete_account_missing i s miss e = ground (arith, miss, e)

get_deleted :
    (i : ℤ) (s : AccountManager) (a : AccountInfo)
    → find_if (has_id i) s.accounts ≡ some a
    → get_account i (delete_account i s).state ≡ some (hidden (deactivated a))
unfolding delete_account get_account
get_deleted i s a hit =
    rw (hit, delete_account)
      (rw (get_account, changed_found deactivated i s a (λ x. refl) hit) refl)

not_active : (a b : AccountInfo) → some (hidden (deactivated a)) ≡ some b → b.is_active ≡ true → ⊥
not_active a b e h = ground (arith, e, h)

-- After an account was deleted no token is granted for it, whether written before or made up.
delete_account-verify_token :
    (orgs : OrgManager) (now i : ℤ) (token : String) (s : AccountManager) (tp : TokenPayload)
    → (delete_account i s).status ≡ ok
    → verify_token orgs now token (delete_account i s).state ≡ granted tp
    → tp.account_id ≢ i
delete_account-verify_token orgs now i token s tp done e same =
    elim (Option-cases (find_if (has_id i) s.accounts)) [
      | inl miss ↦ delete_account_missing i s miss done
      | inr (a, hit) ↦
          (let w : Grants orgs now token (delete_account i s).state tp =
              (verify_token-granted orgs now token (delete_account i s).state tp e).1 in
            not_active a w.2
              (sym (get_deleted i s a hit)
                ∙ subst (λ k. get_account k (delete_account i s).state ≡ some w.2) same w.3)
              w.4)
    ]
