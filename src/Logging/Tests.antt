-- ===== src/Logging/Tests.antt =====
-- What a sign-in request leaves in the log.
use komi_saas_api.Base.{String, ◌≡◌, refl, str_eq, if◌then◌else◌}
use komi_saas_api.Logging.Sanitizer.{
  Value, text, array, object, no_items, item, no_fields, field, Script, is_sensitive, sanitize,
}
use komi_saas_api.Logging.Secrets.{
  same, in_array, in_object, no_more, next_item, shown, hidden, no_more_fields,
  secrets_leave_no_trace,
}
use komi_saas_api.Logging.Size.{Within, log_is_bounded}

abbrev script : Script
script = record {
  lower_case = λ s. if str_eq s "Password" then "password" else s;
  slice_to = λ n s. s;
  to_iso = λ moment. "1970-01-01T00:00:00.000Z";
  show = λ n. "n";
}

-- `[{ user: "ana", body: { Password: … } }]`
abbrev request : String → Value
request secret = array (
    item
      (object (
        field "user" (text "ana")
          (field "body" (object (field "Password" (text secret) no_fields)) no_fields)))
      no_items)

secrets_leave_no_trace_example :
    sanitize script (request "one") 0 ≡ sanitize script (request "another") 0
unfolding is_sensitive
secrets_leave_no_trace_example = secrets_leave_no_trace script (
    in_array (
      next_item
        (in_object (
          shown "user" (same (text "ana")) (
            shown "body"
              (in_object (hidden "Password" (text "one") (text "another") refl no_more_fields))
              no_more_fields)))
        no_more))

log_is_bounded_example : Within 8 (sanitize script (request "one") 0)
log_is_bounded_example = log_is_bounded script (request "one")
