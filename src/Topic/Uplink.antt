-- ===== src/Topic/Uplink.antt =====
-- Topics of messages from devices, as the parser of include/dev_sys/common/types.h takes them apart.
use iot_dev_sys.Common.{◌≡◌, ◌≢◌, refl, ◌∙◌, ap, String, true, [], ◌∷◌, arith, text_iff, text_self}
use iot_dev_sys.Common.Text.{append, lacks}
use iot_dev_sys.Topic.{ParsedTopic, split, parse, parse_parts}
use iot_dev_sys.Topic.Downlink.{slash, split-append, split_segment}

abbrev pub uplink : String → String → ParsedTopic
uplink d ty = record {
  raw_topic = append d (append "/v1/" ty);
  tenant_id = "";
  product_id = "";
  device_id = d;
  message_type = ty;
  command = "";
  valid = true;
}

v1_lacks : lacks slash "v1" ≡ true
unfolding lacks
v1_lacks = refl

split-uplink :
    (d ty : String)
    → lacks slash d ≡ true
    → lacks slash ty ≡ true
    → ty ≢ ""
    → split (append d (append "/v1/" ty)) ≡ d ∷ "v1" ∷ ty ∷ []
unfolding append
split-uplink d ty hd hty n =
    split-append d _ hd
    ∙ ap (λ l. d ∷ l) (split-append "v1" _ v1_lacks ∙ ap (λ l. "v1" ∷ l) (split_segment ty hty n))

-- The topic of a device and a type, both not empty and without a slash, is valid and gives them back.
pub parse-uplink :
    (d ty : String)
    → lacks slash d ≡ true
    → lacks slash ty ≡ true
    → d ≢ ""
    → ty ≢ ""
    → parse (append d (append "/v1/" ty)) ≡ uplink d ty
unfolding parse
parse-uplink d ty hd hty nd nty =
    ap (parse_parts (append d (append "/v1/" ty))) (split-uplink d ty hd hty nty)
    ∙ ground (arith, text_self "v1", text_iff d "", text_iff ty "")
