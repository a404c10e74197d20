-- ===== src/Account/Calls.antt =====
-- Histories of calls of src/app/organization/account_manager.cpp, and what they keep.
use iot_dev_sys.Common.{
  ◌≡◌, refl, sym, subst, String, Bool, not, List, [], ◌∷◌, ◌++◌, ◌==◌, none, arith, inl, inr,
  Option-cases, if_both, find_if, All, All-append, All-update_if,
}
use iot_dev_sys.Common.Int.{ℤ, pos, ◌+ℤ◌, ◌<ℤ◌}
use iot_dev_sys.Common.Keyed.{Ascends, Ascends-concat, Ascends-update_if}
use iot_dev_sys.Common.Named.{Distinct, Distinct-concat, Distinct-update_if, any-find_if}
use iot_dev_sys.Types.Account.{AccountInfo, LoginRequest, LoginResponse}
use iot_dev_sys.Org.{OrgManager, org_exists}
use iot_dev_sys.Account.Roles.{is_role}
use iot_dev_sys.Account.{
  AccountManager, Outcome, new_manager, has_id, get_account_by_username, create_account,
  fresh_account, update_account, updated, change, change_password, with_hash, hash_password,
  delete_account, deactivated, login, logged_in, logout,
}

abbrev pub id : AccountInfo → ℤ
id a = a.account_id

abbrev pub username : AccountInfo → String
username a = a.username

-- The ids are positive, ascend and stay below the counter, and no username occurs twice.
pub record IsValid (s : AccountManager) : Type 0 where
  pub counter : pos 0 <ℤ s.next_id
  pub ascends : Ascends id (pos 0) s.accounts
  pub below : All (λ a. id a <ℤ s.next_id) s.accounts
  pub usernames : Distinct username s.accounts

pub data Call : Type 0 where
  create : OrgManager → String → AccountInfo → String → Call
  update : String → ℤ → AccountInfo → Call
  set_password : ℤ → String → String → Call
  delete : ℤ → Call
  enter : ℤ → ℤ → String → LoginRequest → Call
  leave : String → Call

-- `next` is the state after a call.
unfoldable pub next : (String → String) → Call → AccountManager → AccountManager
unfolding create_account update_account change_password delete_account login logout
next hex_hash (Call.create orgs now info password) s =
    (create_account hex_hash orgs now info password s).0.state
next hex_hash (Call.update now i info) s = (update_account now i info s).state
next hex_hash (Call.set_password i old_password new_password) s =
    (change_password hex_hash i old_password new_password s).state
next hex_hash (Call.delete i) s = (delete_account i s).state
next hex_hash (Call.enter epoch t now req) s = (login hex_hash epoch t now req s).0
next hex_hash (Call.leave token) s = (logout token s).state

unfoldable pub run : (String → String) → List Call → AccountManager → AccountManager
unfolding next
run hex_hash [] s = s
run hex_hash (c ∷ cs) s = run hex_hash cs (next hex_hash c s)

-- What a call can do to the state: nothing, a change of one account that writes neither its id nor its
-- username, a new account, or one more token that is refused.
pub data Step (s : AccountManager) : AccountManager → Type 0 where
  stay : Step s s
  changed :
      (i : ℤ) (f : AccountInfo → AccountInfo)
      → ((a : AccountInfo) → id (f a) ≡ id a)
      → ((a : AccountInfo) → username (f a) ≡ username a)
      → Step s (change i f s)
  added :
      (a : AccountInfo)
      → id a ≡ s.next_id
      → get_account_by_username (username a) s ≡ none
      → Step s (record s { accounts = s.accounts ++ a ∷ []; next_id = s.next_id +ℤ pos 1 })
  invalidated :
      (token : String)
      → Step s (record s { invalidated_tokens = s.invalidated_tokens ++ token ∷ [] })

-- A change of one account that writes neither its id nor its username.
change-IsValid :
    (f : AccountInfo → AccountInfo) (i : ℤ) (s : AccountManager)
    → ((a : AccountInfo) → id (f a) ≡ id a)
    → ((a : AccountInfo) → username (f a) ≡ username a)
    → IsValid s
    → IsValid (change i f s)
change-IsValid f i s keep same v = record {
  counter = v.counter;
  ascends = Ascends-update_if id (has_id i) f (pos 0) s.accounts keep v.ascends;
  below =
      All-update_if (λ a. id a <ℤ s.next_id) (has_id i) f s.accounts
        (λ a h. subst (λ k. k <ℤ s.next_id) (sym (keep a)) h) v.below;
  usernames = Distinct-update_if username (has_id i) f s.accounts same v.usernames;
}

later_below : (i n : ℤ) → i <ℤ n → i <ℤ n +ℤ pos 1
unfolding ◌+ℤ◌
later_below i n h = ground arith

next_below : (n : ℤ) → n <ℤ n +ℤ pos 1
unfolding ◌+ℤ◌
next_below n = ground arith

All-below :
    (n : ℤ) (xs : List AccountInfo) → All (λ a. id a <ℤ n) xs → All (λ a. id a <ℤ n +ℤ pos 1) xs
All-below n [] h = tt
All-below n (a ∷ xs) h = (later_below (id a) n h.0, All-below n xs h.1)

concat-IsValid :
    (a : AccountInfo) (s : AccountManager)
    → id a ≡ s.next_id
    → get_account_by_username (username a) s ≡ none
    → IsValid s
    → IsValid (record s { accounts = s.accounts ++ a ∷ []; next_id = s.next_id +ℤ pos 1 })
unfolding get_account_by_username
concat-IsValid a s new free v = record {
  counter = later_below (pos 0) s.next_id v.counter;
  ascends =
      Ascends-concat id (pos 0) s.accounts a (subst (λ k. pos 0 <ℤ k) (sym new) v.counter)
        (subst (λ k. All (λ x. id x <ℤ k) s.accounts) (sym new) v.below) v.ascends;
  below =
      All-append (λ x. id x <ℤ s.next_id +ℤ pos 1) s.accounts (a ∷ [])
        (All-below s.next_id s.accounts v.below)
        (subst (λ k. k <ℤ s.next_id +ℤ pos 1) (sym new) (next_below s.next_id), tt);
  usernames =
      Distinct-concat username s.accounts a
        (any-find_if (λ x. username x == username a) s.accounts free) v.usernames;
}

create_account-Step :
    (hex_hash : String → String) (orgs : OrgManager) (now : String) (info : AccountInfo)
    (password : String) (s : AccountManager)
    → Step s (create_account hex_hash orgs now info password s).0.state
unfolding create_account
create_account-Step hex_hash orgs now info password s =
    elim (Option-cases (get_account_by_username info.username s)) [
      | inr (a, taken) ↦ rw (taken, create_account) Step.stay
      | inl free ↦
          rw (free, create_account)
            (if_both (λ (o : Outcome × AccountInfo). Step s o.0.state)
              (not (org_exists info.org_id orgs)) _ _ Step.stay
              (if_both (λ (o : Outcome × AccountInfo). Step s o.0.state)
                (not (is_role info.role_code)) _ _ Step.stay
                (Step.added (fresh_account hex_hash orgs now s.next_id password info) refl free)))
    ]

pub next-Step :
    (hex_hash : String → String) (c : Call) (s : AccountManager) → Step s (next hex_hash c s)
unfolding next
next-Step hex_hash (Call.create orgs now info password) s =
    create_account-Step hex_hash orgs now info password s
next-Step hex_hash (Call.update now i info) s =
    elim (Option-cases (find_if (has_id i) s.accounts)) [
      | inl miss ↦ rw (miss, next, update_account) Step.stay
      | inr (a, hit) ↦
          rw (hit, next, update_account) (Step.changed i (updated now info) (λ a. refl) (λ a. refl))
    ]
next-Step hex_hash (Call.set_password i old_password new_password) s =
    elim (Option-cases (find_if (has_id i) s.accounts)) [
      | inl miss ↦ rw (miss, next, change_password) Step.stay
      | inr (a, hit) ↦
          rw (hit, next, change_password)
            (if_both (λ (o : Outcome). Step s o.state)
              (not (a.password_hash == hash_password hex_hash old_password)) _ _ Step.stay
              (Step.changed i (with_hash (hash_password hex_hash new_password)) (λ a. refl)
                (λ a. refl)))
    ]
next-Step hex_hash (Call.delete i) s = elim (Option-cases (find_if (has_id i) s.accounts)) [
  | inl miss ↦ rw (miss, next, delete_account) Step.stay
  | inr (a, hit) ↦
      rw (hit, next, delete_account) (Step.changed i deactivated (λ a. refl) (λ a. refl))
]
next-Step hex_hash (Call.enter epoch t now req) s =
    elim (Option-cases (get_account_by_username req.username s)) [
      | inl miss ↦ rw (miss, next, login) Step.stay
      | inr (a, hit) ↦
          rw (hit, next, login)
            (if_both (λ (o : AccountManager × LoginResponse). Step s o.0) (not a.is_active) _ _
              Step.stay
              (if_both (λ (o : AccountManager × LoginResponse). Step s o.0)
                (not (a.password_hash == hash_password hex_hash req.password)) _ _ Step.stay
                (Step.changed a.account_id (logged_in now) (λ a. refl) (λ a. refl))))
    ]
next-Step hex_hash (Call.leave token) s = Step.invalidated token

pub Step-IsValid : (s r : AccountManager) → Step s r → IsValid s → IsValid r
Step-IsValid s r Step.stay v = v
Step-IsValid s r (Step.changed i f keep same) v = change-IsValid f i s keep same v
Step-IsValid s r (Step.added a new free) v = concat-IsValid a s new free v
Step-IsValid s r (Step.invalidated token) v = record {
  counter = v.counter;
  ascends = v.ascends;
  below = v.below;
  usernames = v.usernames;
}

-- After any creations, updates, changes of passwords, deletions, logins and logouts the account ids are
-- positive, ascend and stay below the counter, and no two accounts have the same username, given that this
-- held before.
pub run-IsValid :
    (hex_hash : String → String) (cs : List Call) (s : AccountManager)
    → IsValid s
    → IsValid (run hex_hash cs s)
unfolding run
run-IsValid hex_hash [] s v = v
run-IsValid hex_hash (c ∷ cs) s v =
    run-IsValid hex_hash cs (next hex_hash c s)
      (Step-IsValid s (next hex_hash c s) (next-Step hex_hash c s) v)

pub new_manager-IsValid : (db : Bool) → IsValid (new_manager db)
unfolding new_manager
new_manager-IsValid db = record { counter = omega arith; ascends = tt; below = tt; usernames = tt }
