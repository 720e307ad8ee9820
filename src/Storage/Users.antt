-- ===== src/Storage/Users.antt =====
-- backend/storage/users_store.py: accounts and the list of invited emails.
use agent_graph_studio.Prelude.{
  if◌then◌else◌, ◌==◌, ==_iff, string_eq, any, String, ◌≡◌, refl, Option, none, some, List, [], ◌∷◌,
  arith, nat_eq, pair_eq, option_eq,
}
use agent_graph_studio.Storage.Table.{
  select, insert, upsert, IsKeyed, insert-IsKeyed, select-insert, select-upsert, merged,
}

pub record UserRow : Type 0 where
  pub id : String
  pub email : String
  pub display_name : String
  pub role : String
  pub created_at : String
  pub invited_by : Option String

pub record InviteRow : Type 0 where
  pub email : String
  pub role : String
  pub invited_by : Option String
  pub invited_at : String

abbrev pub user_key : UserRow → String
user_key u = u.id

abbrev pub user_email : UserRow → String
user_email u = u.email

abbrev pub invite_key : InviteRow → String
invite_key i = i.email

-- `DO UPDATE SET role = excluded.role, invited_by = excluded.invited_by`
abbrev pub reinvited : InviteRow → InviteRow → InviteRow
reinvited new old = record old { role = new.role; invited_by = new.invited_by }

-- The row that is returned is the one that was asked for.
unfoldable pub add_invite : List InviteRow → InviteRow → List InviteRow × InviteRow
add_invite t i = (upsert invite_key t i (reinvited i), i)

unfoldable pub get_invite : List InviteRow → String → Option InviteRow
get_invite t email = select invite_key t email

-- `none` is the IntegrityError of an id or an email that is taken.
unfoldable pub create_user : List UserRow → UserRow → Option (List UserRow)
create_user t u = if any (λ (v : UserRow). v.email == u.email) t then none else insert user_key t u

unfoldable pub get_user_by_email : List UserRow → String → Option UserRow
get_user_by_email t email = select user_email t email

unfoldable pub get_user_by_id : List UserRow → String → Option UserRow
get_user_by_id t id = select user_key t id

abbrev admin_invite : String → String → InviteRow
admin_invite email now = record {
  email = email;
  role = "admin";
  invited_by = none;
  invited_at = now;
}

-- `INSERT … ON CONFLICT(email) DO NOTHING`
unfoldable pub ensure_admin_bootstrapped : List InviteRow → String → String → List InviteRow
ensure_admin_bootstrapped t email now = upsert invite_key t (admin_invite email now) (λ old. old)

-- What is found has the email that was asked for.
pub get_user_by_email-email :
    (t : List UserRow) (email : String) (u : UserRow)
    → get_user_by_email t email ≡ some u
    → u.email ≡ email
unfolding get_user_by_email select
get_user_by_email-email [] email u h = cc
get_user_by_email-email (v ∷ t) email u h =
    ground (arith, ==_iff v.email email, get_user_by_email-email t email u)

-- Ids and emails are unique.
pub record IsUnique (t : List UserRow) : Type 0 where
  pub ids : IsKeyed user_key t
  pub emails : IsKeyed user_email t

insert-snoc :
    (t t' : List UserRow) (u : UserRow)
    → create_user t u ≡ some t'
    → (insert user_key t u ≡ some t') × (insert user_email t u ≡ some t')
unfolding create_user insert
insert-snoc t t' u h = ground arith

-- A user that is created keeps ids and emails unique, is found afterwards under both, and every other
-- id and email finds what it found before.
pub create_user-IsUnique :
    (t t' : List UserRow) (u : UserRow)
    → IsUnique t
    → create_user t u ≡ some t'
    → IsUnique t'
      × ((email : String)
          → get_user_by_email t' email
            ≡ (if u.email == email then some u else get_user_by_email t email))
      × ((id : String)
          → get_user_by_id t' id ≡ (if u.id == id then some u else get_user_by_id t id))
unfolding get_user_by_email get_user_by_id
create_user-IsUnique t t' u v h =
    let (by_id, by_email) = insert-snoc t t' u h in
    (
      record {
        ids = insert-IsKeyed user_key t t' u v.ids by_id;
        emails = insert-IsKeyed user_email t t' u v.emails by_email;
      },
      λ email. select-insert user_email t t' u email by_email,
      λ id. select-insert user_key t t' u id by_id,
    )

-- Bootstrapping leaves every invitation that there is as it is, the administrator's own included, and
-- else invites the given email, and no other, as an administrator.
pub ensure_admin_bootstrapped-get_invite :
    (t : List InviteRow) (email now other : String)
    → get_invite (ensure_admin_bootstrapped t email now) other ≡ (
        if email == other
        then some (merged (λ old. old) (admin_invite email now) (get_invite t email))
        else get_invite t other)
unfolding ensure_admin_bootstrapped get_invite
ensure_admin_bootstrapped-get_invite t email now other =
    select-upsert invite_key (λ old. old) (λ r. refl) t (admin_invite email now) other

-- After an invitation the email is invited with the new role and inviter, at the time of its first
-- invitation if there was one, and no other invitation is changed.
pub add_invite-get_invite :
    (t : List InviteRow) (i : InviteRow) (other : String)
    → get_invite (add_invite t i).0 other ≡ (
        if i.email == other
        then some (merged (reinvited i) i (get_invite t i.email))
        else get_invite t other)
unfolding add_invite get_invite
add_invite-get_invite t i other = select-upsert invite_key (reinvited i) (λ r. refl) t i other
