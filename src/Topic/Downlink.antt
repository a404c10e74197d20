-- ===== src/Topic/Downlink.antt =====
-- Topics of messages to devices, and the segments that the parser of include/dev_sys/common/types.h
-- makes of them.
use Prim.Native.Char.{Char}
use iot_dev_sys.Common.{
  ◌≡◌, ◌≢◌, refl, ◌∙◌, ap, String, true, [], ◌∷◌, arith, text_iff, text_self, is_empty, Bool-cases,
  inl, inr, if_both, if◌then◌else◌,
}
use iot_dev_sys.Common.Text.{append, lacks, append-nil, concat}
use iot_dev_sys.Topic.{split, parse, parse_parts, build_downlink}

abbrev pub slash : Char
slash = "/"

-- A segment without a slash stands alone up to the next slash.
pub split-append :
    (s t : String) → lacks slash s ≡ true → split (append s (append "/" t)) ≡ s ∷ split t
unfolding split append lacks
split-append String.[] t h = refl
split-append (String.◌∷◌ c s) t h = ground (arith, split-append s t)

-- The last segment, if it is not empty, is one.
split_last :
    (c : Char) (s : String)
    → lacks slash (String.◌∷◌ c s) ≡ true
    → split (String.◌∷◌ c s) ≡ String.◌∷◌ c s ∷ []
unfolding split lacks
split_last c String.[] h = ground arith
split_last c (String.◌∷◌ d s) h = ground (arith, split_last d s)

pub split_segment : (s : String) → lacks slash s ≡ true → s ≢ "" → split s ≡ s ∷ []
split_segment String.[] h n = absurd (n refl)
split_segment (String.◌∷◌ c s) h n = split_last c s h

split_rest :
    (ty sub : String)
    → lacks slash ty ≡ true
    → lacks slash sub ≡ true
    → ty ≢ ""
    → split (append ty (concat (if is_empty sub then [] else "/" ∷ sub ∷ [])))
      ≡ ty ∷ (if is_empty sub then [] else sub ∷ [])
unfolding concat
split_rest ty sub hty hsub n = elim (Bool-cases (is_empty sub)) [
  | inl e ↦ rw e (rw (append-nil ty) (split_segment ty hty n))
  | inr e ↦ rw e (
      rw (append-nil sub) (
        split-append ty sub hty
        ∙ ap (λ l. ty ∷ l) (split_segment sub hsub (λ x. cc (e, (text_iff sub "").1 x)))))
]

literals : (lacks slash "$T" ≡ true) × (lacks slash "v1" ≡ true) × (lacks slash "default" ≡ true)
unfolding lacks
literals = (refl, refl, refl)

-- The tenant as it stands in the topic.
abbrev pub tenant_in_topic : String → String
tenant_in_topic t = if is_empty t then "default" else t

split-downlink :
    (t p d ty sub : String)
    → lacks slash t ≡ true
    → lacks slash d ≡ true
    → lacks slash ty ≡ true
    → lacks slash sub ≡ true
    → ty ≢ ""
    → split (build_downlink t p d ty sub)
      ≡ "$T" ∷ tenant_in_topic t ∷ d ∷ "v1" ∷ ty ∷ (if is_empty sub then [] else sub ∷ [])
unfolding build_downlink concat append
split-downlink t p d ty sub ht hd hty hsub n =
    split-append "$T" _ literals.0
    ∙ ap (λ l. "$T" ∷ l)
        (split-append (tenant_in_topic t) _
            (if_both (λ x. lacks slash x ≡ true) (is_empty t) _ _ literals.2 ht)
          ∙ ap (λ l. tenant_in_topic t ∷ l)
              (split-append d _ hd
                ∙ ap (λ l. d ∷ l)
                    (split-append "v1" _ literals.1
                      ∙ ap (λ l. "v1" ∷ l) (split_rest ty sub hty hsub n))))

-- A topic built for a device of a tenant, without slashes in its parts and with a device and a type,
-- is valid for the parser, which gives back the tenant (`default` if it was empty), the device, the
-- type and the command.
pub parse-build_downlink :
    (t p d ty sub : String)
    → lacks slash t ≡ true
    → lacks slash d ≡ true
    → lacks slash ty ≡ true
    → lacks slash sub ≡ true
    → d ≢ ""
    → ty ≢ ""
    → parse (build_downlink t p d ty sub) ≡ record {
      raw_topic = build_downlink t p d ty sub;
      tenant_id = if is_empty t then "default" else t;
      product_id = "";
      device_id = d;
      message_type = ty;
      command = sub;
      valid = true;
    }
unfolding parse
parse-build_downlink t p d ty sub ht hd hty hsub nd nty =
    ap (parse_parts (build_downlink t p d ty sub)) (split-downlink t p d ty sub ht hd hty hsub nty)
    ∙ elim (Bool-cases (is_empty sub)) [
      | inl e ↦
          ground
            (arith, text_self "$T", text_self "v1", text_iff d "", text_iff ty "", text_iff sub "")
      | inr e ↦ ground (arith, text_self "$T", text_self "v1", text_iff d "", text_iff ty "")
    ]
