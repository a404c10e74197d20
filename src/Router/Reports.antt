-- ===== src/Router/Reports.antt =====
-- What a report of a completed order does to the queue behind src/app/message_router.cpp.
use mathlib.Core.List.{append_assoc, append-nil}
use iot_dev_sys.Common.{
  sym, subst, length-append, All, ◌≡◌, refl, ◌∙◌, ap, String, [], ◌∷◌, ◌++◌, Option, none, some,
  arith, length, ltb, if◌then◌else◌, ℕ, zero, suc, ◌+◌, ◌-◌, ◌<◌, ◌≤◌, List, Bool-cases, inl, inr,
}
use iot_dev_sys.Types.Order.{Order, completed}
use iot_dev_sys.Status.{order_queue_full}
use iot_dev_sys.Topic.{ParsedTopic}
use iot_dev_sys.Order.{OrderManager, create_order, order_max_queue_depth}
use iot_dev_sys.Device.{DeviceManager}
use iot_dev_sys.Fault.{FaultManager}
use iot_dev_sys.Ota.{OtaManager}
use iot_dev_sys.Router.{Router, resolve_tenant, order_completed, read_order}

read_order-completed :
    (t : String) (pt : ParsedTopic) (payload : String) (o : Order)
    → read_order t pt payload ≡ some o
    → o.status ≡ completed
unfolding read_order
read_order-completed t pt payload o e = ground arith

abbrev pub with_orders :
    Option DeviceManager → Option OtaManager → Option FaultManager → OrderManager → Router
with_orders ds ot fs s = record { devices = ds; orders = some s; ota = ot; faults = fs }

queued :
    (ds : Option DeviceManager) (ot : Option OtaManager) (fs : Option FaultManager)
    (s : OrderManager) (o : Order)
    → Path (Option Router) (some (with_orders ds ot fs (create_order o s).state)) (
        some (
          with_orders ds ot fs (record s {
            order_queue =
                if ltb (length s.order_queue) order_max_queue_depth
                then s.order_queue ++ o ∷ []
                else s.order_queue;
          })))
unfolding create_order
queued ds ot fs s o = ground arith

abbrev reported :
    Option DeviceManager
    → OrderManager
    → Option OtaManager
    → Option FaultManager
    → Option Order
    → Option Router
reported ds s ot fs none = none
reported ds s ot fs (some o) =
    some (record { devices = ds; orders = some (create_order o s).state; ota = ot; faults = fs })

reported_elim :
    (ds : Option DeviceManager) (s : OrderManager) (ot : Option OtaManager)
    (fs : Option FaultManager) (o : Option Order)
    → Path
        (Option Router)
        (elim o [
          | none ↦ none
          | some x ↦ some (record {
            devices = ds;
            orders = some (create_order x s).state;
            ota = ot;
            faults = fs;
          })
        ])
        (reported ds s ot fs o)
reported_elim ds s ot fs none = refl
reported_elim ds s ot fs (some o) = refl

order_completed_lem :
    (pt : ParsedTopic) (payload : String) (ds : Option DeviceManager) (ot : Option OtaManager)
    (fs : Option FaultManager) (s : OrderManager)
    → order_completed pt payload (record { devices = ds; orders = some s; ota = ot; faults = fs })
      ≡ reported ds s ot fs (read_order (resolve_tenant ds pt.device_id) pt payload)
unfolding order_completed
order_completed_lem pt payload ds ot fs s =
    reported_elim ds s ot fs (read_order (resolve_tenant ds pt.device_id) pt payload)

-- A report of a completed order joins the end of the queue, if there is room.
order_completed-queued :
    (pt : ParsedTopic) (payload : String) (ds : Option DeviceManager) (ot : Option OtaManager)
    (fs : Option FaultManager) (s : OrderManager) (o : Order)
    → read_order (resolve_tenant ds pt.device_id) pt payload ≡ some o
    → order_completed pt payload (record { devices = ds; orders = some s; ota = ot; faults = fs })
      ≡ some (
          with_orders ds ot fs (record s {
            order_queue =
                if ltb (length s.order_queue) order_max_queue_depth
                then s.order_queue ++ o ∷ []
                else s.order_queue;
          }))
order_completed-queued pt payload ds ot fs s o read =
    order_completed_lem pt payload ds ot fs s ∙ ap (reported ds s ot fs) read ∙ queued ds ot fs s o

-- Reports of completed orders, one after the other.
unfoldable pub reports : List (ParsedTopic × String) → Router → Option Router
unfolding order_completed
reports [] r = some r
reports ((pt, payload) ∷ rs) r = elim (order_completed pt payload r) [
  | none ↦ none
  | some t ↦ reports rs t
]

-- The orders that the reports are read as.
abbrev pub AreRead : Option DeviceManager → List (ParsedTopic × String) → List Order → Type 0
AreRead ds [] [] = Unit
AreRead ds [] (o ∷ os) = ⊥
AreRead ds (x ∷ rs) [] = ⊥
AreRead ds ((pt, payload) ∷ rs) (o ∷ os) =
    (read_order (resolve_tenant ds pt.device_id) pt payload ≡ some o) × AreRead ds rs os

unfoldable pub first {ℓ} : {A : Type ℓ} → ℕ → List A → List A
first zero xs = []
first (suc n) [] = []
first (suc n) (x ∷ xs) = x ∷ first n xs

first_room :
    (n max : ℕ) (o : Order) (os : List Order)
    → n < max
    → first (max - n) (o ∷ os) ≡ o ∷ first (max - (n + 1)) os
unfolding first
first_room n max o os h =
    (let e : max - n ≡ suc (max - (n + 1)) = omega arith in ap (λ k. first k (o ∷ os)) e)

first_full : (n max : ℕ) (os : List Order) → max ≤ n → first (max - n) os ≡ []
unfolding first
first_full n max os h = (let e : max - n ≡ zero = omega arith in ap (λ k. first k os) e)

-- The queue after reports of these orders.
abbrev pub filled : List Order → List Order → List Order
filled q os = q ++ first (order_max_queue_depth - length q) os

abbrev next_queue : List Order → Order → List Order
next_queue q o = if ltb (length q) order_max_queue_depth then q ++ o ∷ [] else q

filled_step : (q os : List Order) (o : Order) → filled (next_queue q o) os ≡ filled q (o ∷ os)
filled_step q os o = elim (Bool-cases (ltb (length q) order_max_queue_depth)) [
  | inl room ↦ rw room (
      append_assoc q (o ∷ []) (first (order_max_queue_depth - length (q ++ o ∷ [])) os)
      ∙ ap (λ (k : ℕ). q ++ (o ∷ first (order_max_queue_depth - k) os)) (length-append q (o ∷ []))
      ∙ ap (λ (l : List Order). q ++ l)
          (sym (first_room (length q) order_max_queue_depth o os (ground arith))))
  | inr full ↦ rw full (
      ap (λ (l : List Order). q ++ l)
        (first_full (length q) order_max_queue_depth os (ground arith)
          ∙ sym (first_full (length q) order_max_queue_depth (o ∷ os) (ground arith))))
]

first_nothing : (n : ℕ) → first {A = Order} n [] ≡ []
unfolding first
first_nothing zero = refl
first_nothing (suc n) = refl

filled_nothing : (q : List Order) → filled q [] ≡ q
filled_nothing q =
    ap (λ (l : List Order). q ++ l) (first_nothing (order_max_queue_depth - length q))
    ∙ append-nil q

length-first : (n : ℕ) (os : List Order) → n ≤ length os → length (first n os) ≡ n
unfolding first
length-first zero os h = refl
length-first (suc n) [] h = omega arith
length-first (suc n) (o ∷ os) h = ground (arith, length-first n os)

length-filled :
    (q os : List Order)
    → order_max_queue_depth ≤ length q + length os
    → order_max_queue_depth ≤ length (filled q os)
length-filled q os h =
    (let k : ℕ = order_max_queue_depth - length q in
      let e : length (filled q os) ≡ length q + k =
        length-append q (first k os)
        ∙ ap (λ (n : ℕ). length q + n) (length-first k os (omega arith)) in
      subst (λ n. order_max_queue_depth ≤ n) (sym e) (omega arith))

AreRead-completed :
    (ds : Option DeviceManager) (rs : List (ParsedTopic × String)) (os : List Order)
    → AreRead ds rs os
    → All (λ o. o.status ≡ completed) os
AreRead-completed ds [] [] read = tt
AreRead-completed ds [] (o ∷ os) read = absurd read
AreRead-completed ds (x ∷ rs) [] read = absurd read
AreRead-completed ds ((pt, payload) ∷ rs) (o ∷ os) read = (
  read_order-completed (resolve_tenant ds pt.device_id) pt payload o read.0,
  AreRead-completed ds rs os read.1,
)

create_order_full :
    (o : Order) (s : OrderManager)
    → order_max_queue_depth ≤ length s.order_queue
    → (create_order o s).status ≡ order_queue_full
unfolding create_order
create_order_full o s h = ground arith

reports_next :
    (pt : ParsedTopic) (payload : String) (rs : List (ParsedTopic × String)) (r t : Router)
    → order_completed pt payload r ≡ some t
    → reports ((pt, payload) ∷ rs) r ≡ reports rs t
unfolding reports
reports_next pt payload rs r t e = rw (e, reports) refl

reports-filled :
    (ds : Option DeviceManager) (ot : Option OtaManager) (fs : Option FaultManager)
    (rs : List (ParsedTopic × String)) (os : List Order) (s : OrderManager)
    → AreRead ds rs os
    → reports rs (with_orders ds ot fs s)
      ≡ some (with_orders ds ot fs (record s { order_queue = filled s.order_queue os }))
unfolding reports first
reports-filled ds ot fs [] [] s read =
    ap (λ (q : List Order). some (with_orders ds ot fs (record s { order_queue = q })))
      (sym (filled_nothing s.order_queue))
reports-filled ds ot fs [] (o ∷ os) s read = absurd read
reports-filled ds ot fs (x ∷ rs) [] s read = absurd read
reports-filled ds ot fs ((pt, payload) ∷ rs) (o ∷ os) s read =
    let t : OrderManager = record s { order_queue = next_queue s.order_queue o } in
    reports_next pt payload rs (with_orders ds ot fs s) (with_orders ds ot fs t)
      (order_completed-queued pt payload ds ot fs s o read.0)
    ∙ reports-filled ds ot fs rs os t read.1
    ∙ ap (λ (q : List Order). some (with_orders ds ot fs (record s { order_queue = q })))
        (filled_step s.order_queue os o)

-- Reports of completed orders that can all be read, as many as make ten with the orders that are queued, leave
-- the order that is being brewed and the history as they were. The orders of the reports, all of them
-- completed, follow those that were queued, until there are ten; the other reports are lost. From then on
-- every new order is refused because the queue is full.
pub reports-create_order :
    (ds : Option DeviceManager) (ot : Option OtaManager) (fs : Option FaultManager)
    (rs : List (ParsedTopic × String)) (os : List Order) (s : OrderManager)
    → AreRead ds rs os
    → order_max_queue_depth ≤ length s.order_queue + length os
    → let t : OrderManager = record s { order_queue = filled s.order_queue os } in
      (reports rs (with_orders ds ot fs s) ≡ some (with_orders ds ot fs t))
      × All (λ o. o.status ≡ completed) os
      × ((o : Order) → (create_order o t).status ≡ order_queue_full)
reports-create_order ds ot fs rs os s read many = (
  reports-filled ds ot fs rs os s read,
  AreRead-completed ds rs os read,
  λ o.
      create_order_full o (record s { order_queue = filled s.order_queue os })
        (length-filled s.order_queue os many),
)
