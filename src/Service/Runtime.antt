-- ===== src/Service/Runtime.antt =====
-- What the service takes from outside the repository: the clock and the layouts of package time,
-- Unicode lower case, content sniffing and URL parsing of the standard library, the UUID package,
-- the constants of lfx-v2-fga-sync, and the caller's identity that the middleware put into the
-- context. `now` is the clock's reading for one request, `new_uid` the UUID drawn for it.
use lfx_v2_project_service.Prelude.{ℕ, String, Bool, Option, List}
use lfx_v2_project_service.Domain.Model.{Time}

pub record Runtime : Type 0 where
  pub now : Time
  pub new_uid : String
  pub principal : String
  pub is_uuid : String → Bool
  pub to_lower : String → String
  -- time.Parse and Time.Format with time.DateOnly and time.RFC3339
  pub parse_date_only : String → Option Time
  pub format_date_only : Time → String
  pub parse_rfc3339 : String → Option Time
  pub format_rfc3339 : Time → String
  -- http.DetectContentType, without its parameters (the part before ";", trimmed)
  pub sniff : List ℕ → String
  -- url.Parse, followed by the tests on the scheme and on the host
  pub is_web_url : String → Bool
  pub relation_writer : String
  pub relation_auditor : String
  pub relation_meeting_coordinator : String
  pub relation_parent : String
  pub object_type_project : String
  pub update_access_subject : String
  pub delete_access_subject : String
