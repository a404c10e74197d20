-- ===== src/Handlers/Via.antt =====
-- What a handler of src/main.cpp can do to the state of a manager.
use iot_dev_sys.Common.{Bool, Option, none, some, if_both, if◌then◌else◌}
use iot_dev_sys.Api.{HttpResponse}
use iot_dev_sys.Handlers.{Reply, thrown, answered, or_thrown}

-- What a handler did to a state: it threw, it only answered, or it made one call.
pub data Via {S C : Type 0} (next : C → S → S) (s : S) : Reply S → Type 0 where
  threw : Via next s thrown
  only_answered : (r : HttpResponse) → Via next s (answered r s)
  made : (r : HttpResponse) (c : C) → Via next s (answered r (next c s))

-- The state that is left; it is the old one after an exception.
abbrev pub left_by : {S : Type 0} → S → Reply S → S
left_by s thrown = s
left_by s (answered r t) = t

pub Via-keeps :
    {S C : Type 0} (P : S → Type 0) (next : C → S → S) (s : S) (reply : Reply S)
    → ((c : C) → P s → P (next c s))
    → Via next s reply
    → P s
    → P (left_by s reply)
Via-keeps P next s thrown keep threw v = v
Via-keeps P next s (answered q t) keep (only_answered r) v = v
Via-keeps P next s (answered q t) keep (made r c) v = keep c v

-- A value that may throw, and a handler that goes on with it.
pub Via-or_thrown {ℓ} :
    {A : Type ℓ} {S C : Type 0} (next : C → S → S) (s : S) (o : Option A) (k : A → Reply S)
    → ((a : A) → Via next s (k a))
    → Via next s (or_thrown o k)
Via-or_thrown next s none k h = threw
Via-or_thrown next s (some a) k h = h a

pub Via-option {ℓ} :
    {A : Type ℓ} {S C : Type 0} (next : C → S → S) (s : S) (o : Option A) (x : Reply S)
    (k : A → Reply S)
    → Via next s x
    → ((a : A) → Via next s (k a))
    → Via next s (elim o [ none ↦ x | some a ↦ k a ])
Via-option next s none x k p h = p
Via-option next s (some a) x k p h = h a

pub Via-if :
    {S C : Type 0} (next : C → S → S) (s : S) (b : Bool) (x y : Reply S)
    → Via next s x
    → Via next s y
    → Via next s (if b then x else y)
Via-if next s b x y p q = if_both (Via next s) b x y p q
