-- ===== src/Accounts/Users.antt =====
-- src/app/store/users.py: `SQLAlchemyUserStore`, one action for each method.
use kyrgstudio.Base.{
  ℕ, ◌+◌, String, Option, none, some, List, [], ◌∷◌, ◌++◌, Bool, true, false, ◌&&◌, not, str_eq,
  if◌then◌else◌,
}
use kyrgstudio.Base.Int.{pos}
use kyrgstudio.Base.Json
use kyrgstudio.Base.Json.{field, end, array, texts}
use kyrgstudio.Base.Lists.{find, any, update_where}
use kyrgstudio.Errors.{ErrorClass, Error, new_error}
use kyrgstudio.Database.{
  Result, ok, err, Exec, pure, raise, lift, ◌>>=◌, Outcome, done, integrity, sql, sql_query,
  savepoint,
}
use kyrgstudio.Accounts.{User, AccountTables, AccountDb, user_has_id, is_none}
use kyrgstudio.Accounts.Checks.{user_store_error, required_value, normalize_email, optional_str}

-- `DEFAULT_AUTH_PROVIDER`
abbrev pub default_auth_provider : String
default_auth_provider = "password"

-- `GOOGLE_AUTH_PROVIDER`
abbrev pub google_auth_provider : String
google_auth_provider = "google"

-- The payload of `create_user`: a field that is missing is `none`.
pub record NewUser : Type 0 where
  pub email : Option String
  pub password_hash : Option String
  pub name : Option String
  pub avatar_url : Option String
  pub auth_provider : Option String
  pub google_sub : Option String
  pub email_verified_at : Option ℕ

abbrev pub has_email : String → User → Bool
has_email email user = str_eq user.email email

abbrev pub has_google_sub : String → User → Bool
has_google_sub subject user = elim user.google_sub [ none ↦ false | some s ↦ str_eq s subject ]

abbrev subject_taken : Option String → List User → Bool
subject_taken none users = false
subject_taken (some subject) users = any (has_google_sub subject) users

abbrev insert_user_if : Bool → User → AccountTables → Outcome User × AccountTables
insert_user_if false user t = (integrity "IntegrityError", t)
insert_user_if true user t =
    (done user, record t { users = t.users ++ user ∷ []; next_user = t.next_user + 1 })

-- `INSERT` of a user: the email and the Google subject are unique.
unfoldable pub insert_user : (ℕ → ℕ → User) → ℕ → AccountTables → Outcome User × AccountTables
unfolding any
insert_user row now t =
    let user = row t.next_user now in
    insert_user_if
      (not (any (has_email user.email) t.users) && not (subject_taken user.google_sub t.users)) user
      t

abbrev pub default_provider : Option String → String
default_provider none = default_auth_provider
default_provider (some provider) = provider

-- The row of `User(…)` with the defaults of its columns.
abbrev pub user_row :
    String
    → String
    → Option String
    → Option String
    → Option String
    → Option String
    → Option ℕ
    → ℕ
    → ℕ
    → User
user_row email auth_provider password_hash google_sub name avatar_url email_verified_at id now =
    record {
      id = id;
      email = email;
      password_hash = password_hash;
      name = name;
      avatar_url = avatar_url;
      auth_provider = auth_provider;
      google_sub = google_sub;
      email_verified_at = email_verified_at;
      created_at = now;
      updated_at = now;
      disabled_at = none;
    }

abbrev missing_credential : String → String → Error
missing_credential message name =
    new_error ErrorClass.user_store message none
      (field "operation" (Json.text "create_user") (field "field" (Json.text name) end))

-- The two checks of the provider.
unfoldable pub check_provider : String → Option String → Option String → Result Unit
unfolding new_error
check_provider auth_provider password_hash google_sub =
    if str_eq auth_provider default_auth_provider && is_none password_hash
    then err (missing_credential "Password users require password_hash." "password_hash")
    else if str_eq auth_provider google_auth_provider && is_none google_sub
    then err (missing_credential "Google users require google_sub." "google_sub")
    else ok tt

abbrev conflict_fields : Json.Fields
conflict_fields = field "conflict_fields" (array (texts ("email" ∷ "google_sub" ∷ []))) end

-- `create_user`
unfoldable pub create_user : NewUser → Exec AccountDb User
unfolding normalize_email optional_str check_provider user_store_error insert_user savepoint sql
create_user payload = do
  email ← lift (normalize_email payload.email "email" "create_user")
  let auth_provider = default_provider (optional_str payload.auth_provider)
  let password_hash = optional_str payload.password_hash
  let google_sub = optional_str payload.google_sub
  checked ← lift (check_provider auth_provider password_hash google_sub)
  savepoint (
      sql
        (user_store_error "create_user" "User already exists or violates a unique constraint."
          conflict_fields)
        (user_store_error "create_user" "Failed to create user." end)
        (insert_user (
          user_row email auth_provider password_hash google_sub (optional_str payload.name)
            (optional_str payload.avatar_url) payload.email_verified_at)))

abbrev user_details : ℕ → Json.Fields
user_details user_id = field "user_id" (Json.int (pos user_id)) end

-- `get_user`
unfoldable pub get_user : ℕ → Exec AccountDb (Option User)
unfolding user_store_error find sql_query
get_user user_id =
    sql_query (user_store_error "get_user" "Failed to get user." (user_details user_id))
      (λ t. find (user_has_id user_id) t.users)

-- `get_user_by_email`; emails are unique, so the first row is the row
unfoldable pub get_user_by_email : String → Exec AccountDb (Option User)
unfolding normalize_email user_store_error find sql_query
get_user_by_email email = do
  normalized ← lift (normalize_email (some email) "email" "get_user_by_email")
  sql_query (user_store_error "get_user_by_email" "Failed to get user by email." end)
      (λ t. find (has_email normalized) t.users)

-- `get_user_by_google_sub`
unfoldable pub get_user_by_google_sub : String → Exec AccountDb (Option User)
unfolding required_value user_store_error find sql_query
get_user_by_google_sub google_sub = do
  normalized ← lift (required_value (some google_sub) "google_sub" "get_user_by_google_sub")
  sql_query (user_store_error "get_user_by_google_sub" "Failed to get user by google_sub." end)
      (λ t. find (has_google_sub normalized) t.users)

abbrev id_of : Option User → Option ℕ
id_of none = none
id_of (some user) = some user.id

-- `UPDATE users SET … WHERE id = … RETURNING id`
unfoldable pub update_row :
    ℕ → (ℕ → User → User) → ℕ → AccountTables → Outcome (Option ℕ) × AccountTables
unfolding find update_where
update_row user_id values now t = (
  done (id_of (find (user_has_id user_id) t.users)),
  record t {
    users =
        update_where (user_has_id user_id) (λ user. record (values now user) { updated_at = now })
          t.users;
  },
)

abbrev not_found : String → String → ℕ → Error
not_found message operation user_id =
    new_error ErrorClass.user_store message none
      (field "operation" (Json.text operation) (user_details user_id))

abbrev found_user : Option User → Error → Exec AccountDb User
found_user none e = raise e
found_user (some user) e = pure user

abbrev reload_user : String → ℕ → Option ℕ → Exec AccountDb User
reload_user operation user_id none =
    raise (not_found "User was not found for update." operation user_id)
reload_user operation user_id (some updated) = do
  user ← get_user updated
  found_user user (not_found "Updated user was not found after update." operation updated)

-- `_update_user`
unfoldable pub update_user : String → ℕ → (ℕ → User → User) → Exec AccountDb User
unfolding user_store_error update_row sql get_user new_error
update_user operation user_id values = do
  let failure = user_store_error operation "Failed to update user." (user_details user_id)
  updated ← sql failure failure (update_row user_id values)
  reload_user operation user_id updated

-- `update_password_hash`
unfoldable pub update_password_hash : ℕ → String → Exec AccountDb User
unfolding required_value update_user
update_password_hash user_id password_hash = do
  normalized ← lift (required_value (some password_hash) "password_hash" "update_password_hash")
  update_user "update_password_hash" user_id
      (λ now user. record user { password_hash = some normalized })

-- `mark_email_verified`
unfoldable pub mark_email_verified : ℕ → Exec AccountDb User
unfolding update_user
mark_email_verified user_id =
    update_user "mark_email_verified" user_id
      (λ now user. record user { email_verified_at = some now })
