-- ===== src/Nats/Users.antt =====
-- internal/infrastructure/nats/user_reader.go: the lookups of users in the auth service.
pub mod Misses
use lfx_v2_project_service.Prelude.{
  String, Bool, true, false, Option, none, some, ◌==◌, if◌then◌else◌,
}
use lfx_v2_project_service.Prelude.Text.{trim_space, has_prefix}
use lfx_v2_project_service.Exec.{Result, ok, err, bind}
use lfx_v2_project_service.Domain.Error.{json, other, user_not_found}
use lfx_v2_project_service.Domain.Repository.{UserMetadata, UserReader}

pub record UserMetadataBody : Type 0 where
  pub picture : Option String
  pub zoneinfo : Option String
  pub name : Option String
  pub given_name : Option String
  pub family_name : Option String
  pub job_title : Option String
  pub organization : Option String
  pub country : Option String
  pub state_province : Option String
  pub city : Option String
  pub address : Option String
  pub postal_code : Option String
  pub phone_number : Option String
  pub t_shirt_size : Option String

pub record UserMetadataResponse : Type 0 where
  pub success : Bool
  pub error : String
  pub content : Option UserMetadataBody

-- json.Unmarshal on the two kinds of replies; the envelope of a miss is known by its field `success`.
pub record AuthReplies : Type 0 where
  pub user_metadata_response : String → Option UserMetadataResponse
  pub success_field : String → Option (Option Bool)

abbrev pub user_metadata_read_subject : String
user_metadata_read_subject = "lfx.auth-service.user_metadata.read"

abbrev pub email_to_username_subject : String
email_to_username_subject = "lfx.auth-service.email_to_username"

abbrev or_empty : Option String → String
or_empty none = ""
or_empty (some s) = s

unfoldable pub metadata_of : UserMetadataBody → UserMetadata
metadata_of d = record {
  picture = or_empty d.picture;
  zoneinfo = or_empty d.zoneinfo;
  name = or_empty d.name;
  given_name = or_empty d.given_name;
  family_name = or_empty d.family_name;
  job_title = or_empty d.job_title;
  organization = or_empty d.organization;
  country = or_empty d.country;
  state_province = or_empty d.state_province;
  city = or_empty d.city;
  address = or_empty d.address;
  postal_code = or_empty d.postal_code;
  phone_number = or_empty d.phone_number;
  t_shirt_size = or_empty d.t_shirt_size;
}

-- `!response.Success || response.Data == nil`; the texts of the two errors differ only.
abbrev accepted : UserMetadataResponse → Result UserMetadata
accepted r = elim r.content [
  | none ↦ err other
  | some d ↦ if r.success then ok (metadata_of d) else err other
]

-- What an envelope says: an explicit miss, or something unexpected.
abbrev enveloped : Option (Option Bool) → Result String
enveloped none = err json
enveloped (some none) = err other
enveloped (some (some false)) = err user_not_found
enveloped (some (some true)) = err other

-- A lookup sends a request and leaves the world as it is.
module _ (replies : AuthReplies) {W : Type 0}
    (request : (subject content : String) → W → Result String) where
  unfoldable pub user_metadata_by_principal : String → W → Result UserMetadata
  unfolding metadata_of
  user_metadata_by_principal principal w =
      bind (request user_metadata_read_subject principal w) λ reply.
        elim (replies.user_metadata_response reply) [ none ↦ err json | some r ↦ accepted r ]

  -- The reply to the lookup of a username.
  unfoldable pub username_in : (reply : String) → Result String
  unfolding trim_space has_prefix
  username_in reply =
      let body = trim_space reply in
      if body == ""
      then err user_not_found
      else if has_prefix body "{"
      then enveloped (replies.success_field reply)
      else ok body

  unfoldable pub username_by_email : String → W → Result String
  unfolding username_in
  username_by_email email w = bind (request email_to_username_subject email w) username_in

  unfoldable pub user_reader : UserReader W
  user_reader = record {
    user_metadata_by_principal = user_metadata_by_principal;
    username_by_email = username_by_email;
  }
