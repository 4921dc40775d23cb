-- ===== src/Service/Users.antt =====
-- The users and invites of internal/service/converters.go, and the access message built from them.
pub mod Roles
use lfx_v2_project_service.Prelude.{
  String, Bool, false, not, ◌&&◌, Option, none, some, List, [], ◌∷◌, ◌++◌, ◌==◌, if◌then◌else◌,
}
use lfx_v2_project_service.Prelude.Text.{sprintf, trim_space}
use lfx_v2_project_service.Exec.{Result, ok, err, bind}
use lfx_v2_project_service.Domain.Error.{time_parse}
use lfx_v2_project_service.Domain.Model.{Time, InviteInfo, UserInfo, ProjectBase, ProjectSettings}
use lfx_v2_project_service.Domain.Message.{AccessMessage, access_of}
use lfx_v2_project_service.Service.Api.{
  ApiInvite, ApiUser, Users, ApiProjectBase, ApiProjectSettings, ProjectFull,
}
use lfx_v2_project_service.Service.Runtime.{Runtime}
use lfx_v2_project_service.Service.Pointers.{
  non_empty, deref, deref_flag, print, parse_ptr, parse_or_now,
}

unfoldable pub extract_username : Option UserInfo → String
extract_username none = ""
extract_username (some user) = user.username

unfoldable pub extract_usernames : List UserInfo → List String
extract_usernames [] = []
extract_usernames (u ∷ us) =
    let rest = extract_usernames us in if u.username == "" then rest else u.username ∷ rest

-- `if users := …; len(users) > 0 { relations[name] = users }`
abbrev pub relation : String → List String → List (String × List String)
relation name [] = []
relation name (u ∷ us) = (name, u ∷ us) ∷ []

abbrev pub single : String → List String
single username = if username == "" then [] else username ∷ []

abbrev pub empty_user : UserInfo
empty_user = record { name = ""; email = ""; username = ""; avatar = ""; invite = none }

module _ (rt : Runtime) where
  abbrev pub invite_to_api : Option InviteInfo → Option ApiInvite
  invite_to_api none = none
  invite_to_api (some i) = some (record {
    uid = some i.uid;
    email = some i.email;
    expires_at = print rt.format_rfc3339 i.expires_at;
  })

  unfoldable pub convert_user_to_api : UserInfo → ApiUser
  convert_user_to_api u = record {
    name = some u.name;
    email = some u.email;
    username = some u.username;
    avatar = some u.avatar;
    invite = invite_to_api u.invite;
  }

  unfoldable pub convert_users_to_api : List UserInfo → Users
  unfolding convert_user_to_api
  convert_users_to_api [] = []
  convert_users_to_api (u ∷ us) = some (convert_user_to_api u) ∷ convert_users_to_api us

  abbrev pub user_ptr_to_api : Option UserInfo → Option ApiUser
  user_ptr_to_api none = none
  user_ptr_to_api (some u) = some (convert_user_to_api u)

  -- strings.ToLower(strings.TrimSpace(email))
  unfoldable pub normalize_email : String → String
  normalize_email email = rt.to_lower (trim_space email)

  -- The map `existingByEmail`, read at a key: the last user with that email.
  existing_by_email : UserInfo → List UserInfo → String → UserInfo
  unfolding normalize_email
  existing_by_email found [] key = found
  existing_by_email found (u ∷ us) key =
      existing_by_email (if not (u.email == "") && normalize_email u.email == key then u else found)
        us key

  -- `var user UserInfo; if apiUser.Email != nil { user = existingByEmail[…] }`
  seed : List UserInfo → Option String → UserInfo
  unfolding existing_by_email
  seed existing none = empty_user
  seed existing (some email) = existing_by_email empty_user existing (normalize_email email)

  abbrev pub overlay : Option String → String → String
  overlay none old = old
  overlay (some new) old = new

  unfoldable pub user_from_api : List UserInfo → Option ApiUser → UserInfo
  unfolding seed
  user_from_api existing none = empty_user
  user_from_api existing (some api_user) =
      let user = seed existing api_user.email in
      record {
        name = overlay api_user.name user.name;
        email = overlay api_user.email user.email;
        username = overlay api_user.username user.username;
        avatar = overlay api_user.avatar user.avatar;
        invite = user.invite;
      }

  unfoldable pub convert_users_from_api : List UserInfo → Users → List UserInfo
  unfolding user_from_api
  convert_users_from_api existing [] = []
  convert_users_from_api existing (u ∷ us) =
      user_from_api existing u ∷ convert_users_from_api existing us

  unfoldable pub convert_user_from_api : ApiUser → UserInfo
  convert_user_from_api api_user = record {
    name = deref api_user.name;
    email = deref api_user.email;
    username = deref api_user.username;
    avatar = deref api_user.avatar;
    invite = none;
  }

  abbrev pub user_ptr_from_api : Option ApiUser → Option UserInfo
  user_ptr_from_api none = none
  user_ptr_from_api (some u) = some (convert_user_from_api u)

  unfoldable pub build_fga_update_access_message : ProjectBase → ProjectSettings → AccessMessage
  unfolding extract_username extract_usernames
  build_fga_update_access_message base settings = record {
    object_type = "project";
    operation = "update_access";
    content =
        access_of base.uid base.public
          (relation rt.relation_writer (extract_usernames settings.writers)
            ++ (relation rt.relation_auditor (extract_usernames settings.auditors)
                ++ (relation rt.relation_meeting_coordinator
                      (extract_usernames settings.meeting_coordinators)
                    ++ relation "executive_director"
                        (single (extract_username settings.executive_director)))))
          (if base.parent_uid == ""
            then []
            else (rt.relation_parent, sprintf rt.object_type_project base.parent_uid ∷ []) ∷ []);
  }
