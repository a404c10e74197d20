-- ===== src/Log/Entry.antt =====
-- A line of the log of src/middleware/storage/log_manager.cpp as a reader of JSON sees it.
use iot_dev_sys.Common.{
  String, true, false, ◌≡◌, refl, sym, ap, ◌∙◌, Option, none, some, if◌then◌else◌, ◌==◌, text_iff,
  text_self, Bool-cases, inl, inr,
}
use iot_dev_sys.Common.Text.{append, append_assoc, concat}
use iot_dev_sys.Json.{strip}
use iot_dev_sys.Json.Fields.{strip-append}
use iot_dev_sys.Log.{
  LogManager, Level, debug, info, warn, error_level, level_str, json_escape, log_line, trace_part,
}
use iot_dev_sys.Log.Escape.{json_string, json_string-json_escape, is_clean}

pub record Entry : Type 0 where
  pub ts : String
  pub level : String
  pub name : String
  pub msg : String
  pub trace_id : String

-- The text of a field after what stands in front of it, and the rest behind its closing quote.
unfoldable pub field : String → String → Option (String × String)
unfolding strip json_string
field front s = elim (strip front s) [ none ↦ none | some t ↦ json_string false t ]

-- What is done with a field and the rest.
abbrev pub and_then : (String → String → Option Entry) → Option (String × String) → Option Entry
and_then k none = none
and_then k (some (v, rest)) = k v rest

abbrev pub ends : Entry → String → Option Entry
ends e rest = if rest == "}" then some e else none

abbrev pub with_trace : String → String → String → String → String → Option Entry
with_trace ts level name msg rest =
    let e : Entry = record { ts = ts; level = level; name = name; msg = msg; trace_id = "" } in
    if rest == "}"
    then some e
    else and_then (λ trace. ends (record e { trace_id = trace })) (field ",\"trace_id\":\"" rest)

abbrev pub with_name : String → String → String → String → Option Entry
with_name ts level name rest = and_then (with_trace ts level name) (field ",\"msg\":\"" rest)

abbrev pub with_level : String → String → String → Option Entry
with_level ts level rest = and_then (with_name ts level) (field ",\"module\":\"" rest)

abbrev pub with_ts : String → String → Option Entry
with_ts ts rest = and_then (with_level ts) (field ",\"level\":\"" rest)

unfoldable pub read_entry : String → Option Entry
unfolding field
read_entry s = and_then with_ts (field "{\"ts\":\"" s)

field_lem :
    (front v t : String)
    → is_clean v ≡ true
    → field front (append front (append (json_escape v) (append "\"" t))) ≡ some (v, t)
unfolding field
field_lem front v t h =
    rw (strip-append front (append (json_escape v) (append "\"" t)), field)
      (json_string-json_escape v t h)

level_str_plain : (l : Level) → json_escape (level_str l) ≡ level_str l
unfolding json_escape append
level_str_plain debug = refl
level_str_plain info = refl
level_str_plain warn = refl
level_str_plain error_level = refl

level_str_clean : (l : Level) → is_clean (level_str l) ≡ true
unfolding is_clean
level_str_clean debug = refl
level_str_clean info = refl
level_str_clean warn = refl
level_str_clean error_level = refl

comma_other : (t : String) → (append "," t == "}") ≡ false
unfolding strip
comma_other t = elim (Bool-cases (append "," t == "}")) [
  | inl e ↦ cc (sym (strip-append "," t) ∙ ap (strip ",") ((text_iff (append "," t) "}").0 e))
  | inr e ↦ e
]

abbrev entry : String → String → String → String → String → Entry
entry ts level name msg trace = record {
  ts = ts;
  level = level;
  name = name;
  msg = msg;
  trace_id = trace;
}

-- The end of a line, with the number of the trace if there is one.
with_trace_lem :
    (ts level name msg trace : String)
    → is_clean trace ≡ true
    → with_trace ts level name msg (append (trace_part trace) "}")
      ≡ some (record { ts = ts; level = level; name = name; msg = msg; trace_id = trace })
unfolding trace_part append concat
with_trace_lem ts level name msg trace h = elim (Bool-cases (trace == "")) [
  | inl e ↦ rw e (
      rw (text_self "}")
        (ap (λ (t : String). some (entry ts level name msg t)) (sym ((text_iff trace "").0 e))))
  | inr e ↦ rw e (
      rw (comma_other (append "\"trace_id\":\"" (append (append (json_escape trace) "\"") "}"))) (
        ap
          (λ t.
            and_then (λ k. ends (entry ts level name msg k))
              (field ",\"trace_id\":\"" (append ",\"trace_id\":\"" t)))
          (append_assoc (json_escape trace) "\"" "}")
        ∙ ap (and_then (λ k. ends (entry ts level name msg k)))
            (field_lem ",\"trace_id\":\"" trace "}" h)
        ∙ rw (text_self "}") refl))
]

-- The line, field by field.
abbrev parts : String → Level → String → String → String → String
parts ts level name msg trace = append "{\"ts\":\"" (
    append (json_escape ts) (
      append "\"" (
        append ",\"level\":\"" (
          append (json_escape (level_str level)) (
            append "\"" (
              append ",\"module\":\"" (
                append (json_escape name) (
                  append "\"" (
                    append ",\"msg\":\"" (
                      append (json_escape msg)
                        (append "\"" (append (trace_part trace) "}"))))))))))))

log_line-parts :
    (m : LogManager) (ts : String) (level : Level) (name msg : String)
    → json_escape ts ≡ ts
    → log_line m ts level name msg ≡ parts ts level name msg m.trace_id
unfolding log_line append concat
log_line-parts m ts level name msg plain = rw plain (rw (level_str_plain level) refl)

-- A line that is written is read back as its parts by a reader of JSON strings that refuses a raw control
-- character and an unknown escape. The time, the name, the message and the trace may hold any characters
-- but the control characters other than newline, carriage return and tab, and the time needs no escape.
pub read_entry-log_line :
    (m : LogManager) (ts : String) (level : Level) (name msg : String)
    → json_escape ts ≡ ts
    → is_clean ts ≡ true
    → is_clean name ≡ true
    → is_clean msg ≡ true
    → is_clean m.trace_id ≡ true
    → read_entry (log_line m ts level name msg)
      ≡ some (record {
        ts = ts;
        level = level_str level;
        name = name;
        msg = msg;
        trace_id = m.trace_id;
      })
unfolding read_entry
read_entry-log_line m ts level name msg plain ct cn cm ctr =
    ap read_entry (log_line-parts m ts level name msg plain)
    ∙ ap (and_then with_ts) (field_lem "{\"ts\":\"" ts _ ct)
    ∙ ap (and_then (with_level ts))
        (field_lem ",\"level\":\"" (level_str level) _ (level_str_clean level))
    ∙ ap (and_then (with_name ts (level_str level))) (field_lem ",\"module\":\"" name _ cn)
    ∙ ap (and_then (with_trace ts (level_str level) name)) (field_lem ",\"msg\":\"" msg _ cm)
    ∙ with_trace_lem ts (level_str level) name msg m.trace_id ctr
