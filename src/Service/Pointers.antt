-- ===== src/Service/Pointers.antt =====
-- The nil checks and the dates of internal/service/converters.go.
use lfx_v2_project_service.Prelude.{String, Bool, false, Option, none, some, ◌==◌, if◌then◌else◌}
use lfx_v2_project_service.Exec.{Result, ok, err, bind}
use lfx_v2_project_service.Domain.Error.{time_parse}
use lfx_v2_project_service.Domain.Model.{Time}

-- `if s != "" { p = &s }`
abbrev pub non_empty : String → Option String
non_empty s = if s == "" then none else some s

-- `if p != nil { s = *p }`, where `s` starts as the empty string
abbrev pub deref : Option String → String
deref none = ""
deref (some s) = s

abbrev pub deref_flag : Option Bool → Bool
deref_flag none = false
deref_flag (some b) = b

-- `if t != nil { p = StringPtr(t.Format(layout)) }`
abbrev pub print : (Time → String) → Option Time → Option String
print format none = none
print format (some t) = some (format t)

abbrev pub parsed : Option Time → Result Time
parsed none = err time_parse
parsed (some t) = ok t

-- `if p != nil { t, err := time.Parse(layout, *p); … }`
abbrev pub parse_ptr : (String → Option Time) → Option String → Result (Option Time)
parse_ptr parse none = ok none
parse_ptr parse (some s) = bind (parsed (parse s)) λ t. ok (some t)

-- The same, with the current time for a missing value.
abbrev pub parse_or_now : (String → Option Time) → Time → Option String → Result (Option Time)
parse_or_now parse now none = ok (some now)
parse_or_now parse now (some s) = bind (parsed (parse s)) λ t. ok (some t)
