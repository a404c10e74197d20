-- ===== src/Topic.antt =====
-- include/dev_sys/common/types.h, `ParsedTopic`: the topic of an MQTT message, taken apart at its
-- slashes, and the topic of a message to a device.
pub mod Downlink
pub mod Uplink
use Prim.Native.Char.{Char}
use iot_dev_sys.Common.{
  ℕ, zero, suc, String, Bool, true, false, not, ◌&&◌, List, [], ◌∷◌, length, leb, ltb, ◌==◌,
  is_empty, if◌then◌else◌,
}
use iot_dev_sys.Common.Text.{is, concat}

pub record ParsedTopic : Type 0 where
  pub raw_topic : String
  pub tenant_id : String
  pub product_id : String
  pub device_id : String
  pub message_type : String
  pub command : String
  pub valid : Bool

-- A character in front of the first segment.
abbrev pub extend : Char → List String → List String
extend c [] = String.◌∷◌ c "" ∷ []
extend c (s ∷ ss) = String.◌∷◌ c s ∷ ss

-- `std::getline` until the stream ends: an empty rest after the last slash is no segment.
unfoldable pub split : String → List String
split String.[] = []
split (String.◌∷◌ c s) = if is c "/" then "" ∷ split s else extend c (split s)

-- `parts[n]`, where the source has checked that it is there, and the empty text where it has not.
unfoldable pub part : List String → ℕ → String
part [] n = ""
part (s ∷ ss) zero = s
part (s ∷ ss) (suc n) = part ss n

-- The segments from the one of the device on.
unfoldable pub from_device : String → String → List String → ParsedTopic
unfolding part
from_device topic tenant_id parts = record {
  raw_topic = topic;
  tenant_id = tenant_id;
  product_id = "";
  device_id = part parts 0;
  message_type = part parts 2;
  command = part parts 3;
  valid = part parts 1 == "v1" && not (is_empty (part parts 0)) && not (is_empty (part parts 2));
}

abbrev pub skip_two : List String → List String
skip_two (a ∷ b ∷ ss) = ss
skip_two _ = []

unfoldable pub parse_parts : String → List String → ParsedTopic
unfolding from_device part
parse_parts topic parts =
    if ltb (length parts) 3
    then record {
      raw_topic = topic;
      tenant_id = "";
      product_id = "";
      device_id = "";
      message_type = "";
      command = "";
      valid = false;
    }
    else if part parts 0 == "$T" && leb 5 (length parts)
    then from_device topic (part parts 1) (skip_two parts)
    else from_device topic "" parts

unfoldable pub parse : String → ParsedTopic
unfolding split parse_parts
parse topic = parse_parts topic (split topic)

unfoldable pub build_downlink : String → String → String → String → String → String
unfolding concat
build_downlink tenant_id product_id device_id type sub = concat (
    "$T/"
    ∷ (if is_empty tenant_id then "default" else tenant_id)
    ∷ "/"
    ∷ device_id
    ∷ "/v1/"
    ∷ type
    ∷ (if is_empty sub then [] else "/" ∷ sub ∷ []))
