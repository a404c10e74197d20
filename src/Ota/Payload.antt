-- ===== src/Ota/Payload.antt =====
-- The notification that src/app/ota/ota_manager.cpp builds for a device, as the JSON helper of
-- include/dev_sys/common/types.h reads it.
use iot_dev_sys.Common.{
  ◌≡◌, refl, ◌∙◌, ap, String, Bool, true, false, some, none, ◌==◌, ◌||◌, if◌then◌else◌,
}
use iot_dev_sys.Common.Text.{append, lacks, concat}
use iot_dev_sys.Json.{
  strip, seek, get_string, get_bool, search_for, find, find_first_of, before, has_char,
}
use iot_dev_sys.Json.Fields.{quote, past_field, at_key, seek_skip, seek_key}
use iot_dev_sys.Ota.{build_ota_notify_payload}

-- A field with a quoted value and the comma behind it, in front of `"` and `t`.
abbrev field : String → String → String → String
field key v t =
    append key
      (append "\"" (append ":" (append "\"" (append v (append "\"" (append "," (append "\"" t)))))))

abbrev force_field : Bool → String
force_field true = "force_upgrade\":true}"
force_field false = "force_upgrade\":false}"

abbrev body : String → String → String → Bool → String
body v u c force =
    field "version" v (field "download_url" u (field "checksum" c (force_field force)))

payload_body :
    (v u c : String) (force : Bool)
    → build_ota_notify_payload v u c force ≡ append "{" (append "\"" (body v u c force))
unfolding build_ota_notify_payload concat append
payload_body v u c true = refl
payload_body v u c false = refl

comma_differs : (p u : String) → strip (append ":" p) (append "," u) ≡ none
unfolding strip append
comma_differs p u = refl

keys_lack :
    (lacks quote "version" ≡ true)
    × (lacks quote "download_url" ≡ true)
    × (lacks quote "checksum" ≡ true)
    × (lacks quote "force_upgrade" ≡ true)
    × (lacks quote "{" ≡ true)
unfolding lacks
keys_lack = (refl, refl, refl, refl, refl)

-- The search for any key starts behind the brace.
start :
    (p v u c : String) (force : Bool)
    → seek (append "\"" p) (build_ota_notify_payload v u c force)
      ≡ seek (append "\"" p) (append "\"" (body v u c force))
start p v u c force =
    ap (seek (append "\"" p)) (payload_body v u c force) ∙ seek_skip p "{" _ keys_lack.4

get-version :
    (v u c : String) (force : Bool)
    → lacks quote v ≡ true
    → get_string (build_ota_notify_payload v u c force) "version" ≡ v
unfolding append
get-version v u c force hv =
    at_key "version" v _ hv (build_ota_notify_payload v u c force)
      (start _ v u c force ∙ seek_key "version" ":\"" (append v (append "\"" _)))

keys_differ :
    (("download_url" == "version" || "download_url" == ":" || "download_url" == ",") ≡ false)
    × (("checksum" == "version" || "checksum" == ":" || "checksum" == ",") ≡ false)
    × (("checksum" == "download_url" || "checksum" == ":" || "checksum" == ",") ≡ false)
    × (("force_upgrade" == "version" || "force_upgrade" == ":" || "force_upgrade" == ",") ≡ false)
    × (("force_upgrade" == "download_url" || "force_upgrade" == ":" || "force_upgrade" == ",")
        ≡ false)
    × (("force_upgrade" == "checksum" || "force_upgrade" == ":" || "force_upgrade" == ",") ≡ false)
unfolding ◌==◌
keys_differ = (refl, refl, refl, refl, refl, refl)

get-download_url :
    (v u c : String) (force : Bool)
    → lacks quote v ≡ true
    → lacks quote u ≡ true
    → get_string (build_ota_notify_payload v u c force) "download_url" ≡ u
unfolding append
get-download_url v u c force hv hu =
    at_key "download_url" u _ hu (build_ota_notify_payload v u c force) (
      start _ v u c force
      ∙ past_field "download_url" "version" v ":\"" _ keys_lack.1 keys_lack.0 hv keys_differ.0
          (comma_differs "\"")
      ∙ seek_key "download_url" ":\"" (append u (append "\"" _)))

get-checksum :
    (v u c : String) (force : Bool)
    → lacks quote v ≡ true
    → lacks quote u ≡ true
    → lacks quote c ≡ true
    → get_string (build_ota_notify_payload v u c force) "checksum" ≡ c
unfolding append
get-checksum v u c force hv hu hc =
    at_key "checksum" c _ hc (build_ota_notify_payload v u c force) (
      start _ v u c force
      ∙ past_field "checksum" "version" v ":\"" _ keys_lack.2 keys_lack.0 hv keys_differ.1
          (comma_differs "\"")
      ∙ past_field "checksum" "download_url" u ":\"" _ keys_lack.2 keys_lack.1 hu keys_differ.2
          (comma_differs "\"")
      ∙ seek_key "checksum" ":\"" (append c (append "\"" _)))

found_force :
    (v u c : String) (force : Bool)
    → lacks quote v ≡ true
    → lacks quote u ≡ true
    → lacks quote c ≡ true
    → seek (search_for "force_upgrade" "") (build_ota_notify_payload v u c force)
      ≡ some (append "\"" (force_field force))
unfolding append search_for
found_force v u c force hv hu hc =
    start _ v u c force
    ∙ past_field "force_upgrade" "version" v ":" _ keys_lack.3 keys_lack.0 hv keys_differ.3
        (comma_differs "")
    ∙ past_field "force_upgrade" "download_url" u ":" _ keys_lack.3 keys_lack.1 hu keys_differ.4
        (comma_differs "")
    ∙ past_field "force_upgrade" "checksum" c ":" _ keys_lack.3 keys_lack.2 hc keys_differ.5
        (comma_differs "")
    ∙ at_force force
  where
    at_force :
        (b : Bool)
        → seek (search_for "force_upgrade" "") (append "\"" (force_field b))
          ≡ some (append "\"" (force_field b))
    at_force true = seek_key "force_upgrade" ":" "true}"
    at_force false = seek_key "force_upgrade" ":" "false}"

read_force :
    (b d : Bool)
    → Path Bool
        (if before
            (find "true" (append "\"" (force_field b)))
            (find_first_of ",}\n\r" (append "\"" (force_field b)))
          then true
          else if before
              (find "false" (append "\"" (force_field b)))
              (find_first_of ",}\n\r" (append "\"" (force_field b)))
          then false
          else d)
        b
unfolding before find find_first_of append has_char strip
read_force true d = refl
read_force false d = refl

-- From a notification whose version, address and checksum hold no quote, `JsonHelper` reads back
-- these three and the force flag.
pub build_ota_notify_payload-fields :
    (v u c : String) (force d : Bool)
    → lacks quote v ≡ true
    → lacks quote u ≡ true
    → lacks quote c ≡ true
    → let json = build_ota_notify_payload v u c force in
      (get_string json "version" ≡ v)
      × (get_string json "download_url" ≡ u)
      × (get_string json "checksum" ≡ c)
      × (get_bool json "force_upgrade" d ≡ force)
unfolding get_bool
build_ota_notify_payload-fields v u c force d hv hu hc = (
  get-version v u c force hv,
  get-download_url v u c force hv hu,
  get-checksum v u c force hv hu hc,
  rw (found_force v u c force hv hu hc, get_bool) (read_force force d),
)
