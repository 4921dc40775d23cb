-- ===== src/Nats/Messages.antt =====
-- internal/infrastructure/nats/message.go: the message builder over a NATS connection.
use lfx_v2_project_service.Prelude.{
  String, Bool, true, false, Option, none, some, List, [], ◌∷◌, ◌++◌, ◌==◌, if◌then◌else◌,
}
use lfx_v2_project_service.Exec.{Result, ok, err, Exec, pure, raise, from_option, ◌>>=◌, ◌>>◌}
use lfx_v2_project_service.Domain.Error.{json, other}
use lfx_v2_project_service.Domain.Model.{Time}
use lfx_v2_project_service.Domain.Message.{
  Action, deleted, Body, uid, IndexingConfig, IndexerMessage, envelope, bare, AccessMessage,
  ProjectEvent, EmailRequest, InviteRequest, InviteResult,
}
use lfx_v2_project_service.Domain.Repository.{MessageBuilder}

-- INatsConn, as far as the message builder uses it. A request has the bound of ten seconds or the
-- context's; a reply that does not come is an error.
pub record NatsConn (W : Type 0) : Type 0 where
  pub publish_msg : (subject content : String) → Exec W (Unit {0})
  pub request_msg : (subject content : String) → Exec W String

-- The `Data` that the indexer receives: a decoded object or the UID of something deleted.
pub data Payload (J : Type 0) : Type 0 where
  object : J → Payload J
  deleted_uid : String → Payload J

pub record OutgoingEnvelope (J : Type 0) : Type 0 where
  pub action : Action
  pub headers : List (String × String)
  pub content : Payload J
  pub tags : List String
  pub indexing_config : Option IndexingConfig

pub record InviteData : Type 0 where
  pub uid : String
  pub email : String
  pub expires_at : Time

pub record InviteResponse : Type 0 where
  pub error : String
  pub invite_data : Option InviteData

-- encoding/json on the messages and the replies; `J` is a decoded JSON value. `decode` unmarshals and
-- passes the value through mapstructure. `email_error` is the error that a reply of the email service
-- carries.
pub record MessageCodec (J : Type 0) : Type 0 where
  pub marshal_body : Body → Option String
  pub decode : String → Option J
  pub marshal_envelope : OutgoingEnvelope J → Option String
  pub marshal_access : AccessMessage → Option String
  pub marshal_event : ProjectEvent → Option String
  pub marshal_invite : InviteRequest → Option String
  pub marshal_email : EmailRequest → Option String
  pub invite_response : String → Option InviteResponse
  pub email_error : String → Option String

-- The subjects of the invite service and of the email service.
pub record ServiceSubjects : Type 0 where
  pub send_invite_subject : String
  pub send_email_subject : String

abbrev is_given : Option String → Bool
is_given none = false
is_given (some e) = if e == "" then false else true

-- `if authorization, ok := …; ok { headers[…] = authorization }`, and the same for the principal
abbrev header : String → Option String → List (String × String)
header name none = []
header name (some v) = (name, v) ∷ []

module _ {J : Type 0} (codec : MessageCodec J) (subjects : ServiceSubjects)
    (authorization principal : Option String) {W : Type 0} (conn : NatsConn W) where
  unfoldable pub send_message : (subject content : String) → (sync : Bool) → Exec W (Unit {0})
  send_message subject content true = do conn.request_msg subject content; pure tt
  send_message subject content false = conn.publish_msg subject content

  -- The data of an envelope, raw for a deletion.
  unfoldable pub payload_of : Action → String → Option (Payload J)
  payload_of deleted content = some (deleted_uid content)
  payload_of _ content = elim (codec.decode content) [ none ↦ none | some j ↦ some (object j) ]

  unfoldable pub send_indexer :
      (subject : String)
      → Action
      → (content : String) → Option IndexingConfig
      → (sync : Bool) → Exec W (Unit {0})
  unfolding payload_of send_message
  send_indexer subject action content config sync = do
    payload ← from_option json (payload_of action content)
    bytes ← from_option json (
        codec.marshal_envelope (record {
          action = action;
          headers = header "authorization" authorization ++ header "x-on-behalf-of" principal;
          content = payload;
          tags = [];
          indexing_config = config;
        }))
    send_message subject bytes sync

  -- The bytes of the data: a UID as it is in a deletion, JSON otherwise.
  unfoldable pub body_bytes : Action → Body → Option String
  body_bytes deleted (uid u) = some u
  body_bytes action body = codec.marshal_body body

  unfoldable pub send_indexer_message :
      (subject : String) → IndexerMessage → Bool → Exec W (Unit {0})
  unfolding body_bytes send_indexer
  send_indexer_message subject (envelope action body config) sync = do
    content ← from_option json (body_bytes action body)
    send_indexer subject action content (some config) sync
  send_indexer_message subject (bare u) sync = send_indexer subject deleted u none sync

  unfoldable pub send_access_message : (subject : String) → AccessMessage → Bool → Exec W (Unit {0})
  unfolding send_message
  send_access_message subject m sync = do
    bytes ← from_option json (codec.marshal_access m)
    send_message subject bytes sync

  unfoldable pub send_project_event_message : (subject : String) → ProjectEvent → Exec W (Unit {0})
  send_project_event_message subject m = do
    bytes ← from_option json (codec.marshal_event m)
    conn.publish_msg subject bytes

  -- `resp.InviteData == nil || resp.UID == ""`
  unfoldable pub invite_result : InviteResponse → Result InviteResult
  invite_result resp = elim resp.invite_data [
    | none ↦ err other
    | some d ↦
        if d.uid == ""
        then err other
        else ok
            (record { invite_uid = d.uid; recipient_email = d.email; expires_at = d.expires_at })
  ]

  -- The reply of the invite service; an empty reply leaves the response at its zero value.
  unfoldable pub read_invite_reply : (reply : String) → Result InviteResult
  unfolding invite_result
  read_invite_reply reply = if reply == "" then err other else elim (codec.invite_response reply) [
    | none ↦ err json
    | some resp ↦ if resp.error == "" then invite_result resp else err other
  ]

  unfoldable pub send_invite_request : InviteRequest → Exec W InviteResult
  unfolding read_invite_reply
  send_invite_request req = do
    bytes ← from_option json (codec.marshal_invite req)
    reply ← conn.request_msg subjects.send_invite_subject bytes
    λ w. (read_invite_reply reply, w)

  unfoldable pub send_email_request : EmailRequest → Exec W (Unit {0})
  send_email_request req = do
    bytes ← from_option json (codec.marshal_email req)
    reply ← conn.request_msg subjects.send_email_subject bytes
    if reply == ""
        then pure tt
        else if is_given (codec.email_error reply)
        then raise other
        else pure tt

  unfoldable pub message_builder : MessageBuilder W
  message_builder = record {
    send_indexer_message = send_indexer_message;
    send_access_message = send_access_message;
    send_project_event_message = send_project_event_message;
    send_email_request = send_email_request;
    send_invite_request = send_invite_request;
  }
