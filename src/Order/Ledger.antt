-- ===== src/Order/Ledger.antt =====
-- Conservation in src/app/order/order_manager.cpp: which order ids a call adds to the orders that
-- `list_all_orders` returns, and which it takes away.
use mathlib.Core.List.{
  Perm, map-append, append_assoc, perm_append_singleton, perm_append_comm, perm_middle,
}
use mathlib.Core.List.Perm
use iot_dev_sys.Common.{
  ◌≡◌, refl, String, Bool, true, false, List, [], ◌∷◌, ◌++◌, map, Option, none, some, inl, inr, leb,
  if◌then◌else◌, Bool-cases, Option-cases, length, find_if, erase_if, erase_if-perm, map-update_if,
}
use iot_dev_sys.Types.Order.{Order, paid}
use iot_dev_sys.Order.{
  OrderManager, order_max_queue_depth, has_id, is_current, create_order, cancel_order,
  confirm_payment, start_brewing, finish, emergency_stop, load_from_database, to_list,
  list_all_orders,
}
use iot_dev_sys.Order.Run.{
  Call, create, cancel, confirm, start, complete, fail, stop, load, call, run,
}

abbrev pub ids : List Order → List String
ids = map λ o. o.order_id

unfoldable pub ledger : OrderManager → List String
unfolding list_all_orders
ledger s = ids (list_all_orders s)

-- What a call adds: an accepted order, and what the database holds.
unfoldable pub gained : Call → OrderManager → List String
gained (create o) s =
    if leb order_max_queue_depth (length s.order_queue) then [] else o.order_id ∷ []
gained (load stored) s = if s.db then ids stored else []
gained _ s = []

-- What a call takes away: the current order at an emergency stop.
unfoldable pub lost : Call → OrderManager → List String
lost stop s = ids (to_list s.current_order)
lost _ s = []

-- An order that leaves the queue for the end of the history.
settle {ℓ} :
    {A : Type ℓ} (c q h q' : List A) (x : A)
    → Perm q (x ∷ q')
    → Perm ((c ++ q') ++ (h ++ x ∷ [])) ((c ++ q) ++ h)
settle c q h q' x p = rw (← append_assoc) (
    Perm.trans (perm_append_singleton x _) (
      Perm.append_right h
        (Perm.trans (Perm.symm (perm_middle c q')) (Perm.append_left c (Perm.symm p)))))

exchange {ℓ} : {A : Type ℓ} (a b c : List A) → Perm (a ++ (b ++ c)) (b ++ (a ++ c))
exchange a b c = rw (← append_assoc, ← append_assoc) (Perm.append_right c (perm_append_comm a b))

found-perm :
    (i : String) (q : List Order) (o : Order)
    → find_if (has_id i) q ≡ some o
    → Perm (ids q) (o.order_id ∷ ids (erase_if (has_id i) q))
found-perm i q o e = Perm.map _ (erase_if-perm (has_id i) q o e)

cancel_order-ledger :
    (i : String) (s : OrderManager) → Perm (ledger (cancel_order i s).state) (ledger s)
unfolding cancel_order ledger
cancel_order-ledger i s = elim (Bool-cases (is_current s.current_order i)) [
  | inl yes' ↦ rw yes' Perm.rfl
  | inr no' ↦ elim (Option-cases (find_if (has_id i) s.order_queue)) [
    | inl miss ↦ rw (no', miss) Perm.rfl
    | inr (o, hit) ↦
        rw (no', hit) (simp map-append (settle _ _ _ _ _ (found-perm i s.order_queue o hit)))
  ]
]

confirm_payment-ledger :
    (i : String) (s : OrderManager) → ledger (confirm_payment i s).state ≡ ledger s
unfolding confirm_payment ledger list_all_orders
confirm_payment-ledger i s = elim (Option-cases (find_if (has_id i) s.order_queue)) [
  | inl miss ↦ rw (miss, confirm_payment)
  | inr (o, hit) ↦
      rw (hit, confirm_payment)
        (simp (
          map-append,
          map-update_if (has_id i) (λ o. o.order_id) (λ p. record p { status = paid }) s.order_queue
              (λ o. refl),
        ))
]

abbrev manager : List Order → Option Order → List Order → Bool → OrderManager
manager q c h db = record { order_queue = q; current_order = c; history_orders = h; db = db }

start_brewing-ledger :
    (i : String) (q : List Order) (c : Option Order) (h : List Order) (db : Bool)
    → Perm (ledger (start_brewing i (manager q c h db)).state) (ledger (manager q c h db))
unfolding start_brewing ledger list_all_orders
start_brewing-ledger i q (some o) h db = Perm.rfl
start_brewing-ledger i q none h db = elim (Option-cases (find_if (has_id i) q)) [
  | inl miss ↦ rw (miss, start_brewing) Perm.rfl
  | inr (o, hit) ↦
      rw (hit, start_brewing)
        (simp map-append (Perm.append_right (ids h) (Perm.symm (found-perm i q o hit))))
]

finish-ledger :
    (i : String) (mark : Order → Order) (q : List Order) (c : Option Order) (h : List Order)
    (db : Bool)
    → ((o : Order) → (mark o).order_id ≡ o.order_id)
    → Perm (ledger (finish i mark (manager q c h db)).state) (ledger (manager q c h db))
unfolding ledger list_all_orders
finish-ledger i mark q none h db keep = Perm.rfl
finish-ledger i mark q (some o) h db keep = elim (Bool-cases (has_id i o)) [
  | inl same ↦ rw same (
      simp (map-append, keep)
        (rw (← append_assoc) (perm_append_singleton o.order_id (ids q ++ ids h))))
  | inr other ↦ rw other Perm.rfl
]

create_order-ledger :
    (o : Order) (s : OrderManager)
    → Perm (ledger (create_order o s).state) (gained (create o) s ++ ledger s)
unfolding create_order ledger list_all_orders gained
create_order-ledger o s = elim (Bool-cases (leb order_max_queue_depth (length s.order_queue))) [
  | inl full ↦ rw full Perm.rfl
  | inr room ↦ rw room (
      simp (map-append, append_assoc)
        (Perm.trans
          (Perm.append_left (ids (to_list s.current_order)) (perm_middle (ids s.order_queue) _))
          (perm_middle (ids (to_list s.current_order)) _)))
]

emergency_stop-ledger :
    (q : List Order) (c : Option Order) (h : List Order) (db : Bool)
    → Perm
        (ids (to_list c) ++ ledger (emergency_stop (manager q c h db)).state)
        (ledger (manager q c h db))
unfolding emergency_stop ledger list_all_orders
emergency_stop-ledger q none h db = Perm.rfl
emergency_stop-ledger q (some o) h db = Perm.rfl

load-ledger :
    (stored q : List Order) (c : Option Order) (h : List Order) (db : Bool)
    → Perm
        (ledger (load_from_database stored (manager q c h db)).state)
        (gained (load stored) (manager q c h db) ++ ledger (manager q c h db))
unfolding load_from_database ledger list_all_orders gained
load-ledger stored q c h false = Perm.rfl
load-ledger stored q c h true =
    simp map-append
      (rw (← append_assoc) (perm_append_comm (ids (to_list c) ++ ids q ++ ids h) (ids stored)))

-- One call: the ids afterwards, with those lost, are the ids before with those gained.
pub call-ledger :
    (c : Call) (s : OrderManager)
    → Perm (lost c s ++ ledger (call c s).state) (gained c s ++ ledger s)
unfolding call lost gained
call-ledger (create o) s = create_order-ledger o s
call-ledger (cancel i) s = cancel_order-ledger i s
call-ledger (confirm i) s = rw (confirm_payment-ledger i s) Perm.rfl
call-ledger (start i) s = start_brewing-ledger i s.order_queue s.current_order s.history_orders s.db
call-ledger (complete i) s =
    finish-ledger i _ s.order_queue s.current_order s.history_orders s.db (λ o. refl)
call-ledger (fail i reason) s =
    finish-ledger i _ s.order_queue s.current_order s.history_orders s.db (λ o. refl)
call-ledger stop s = emergency_stop-ledger s.order_queue s.current_order s.history_orders s.db
call-ledger (load stored) s = load-ledger stored s.order_queue s.current_order s.history_orders s.db

-- Over a history of calls the gains and losses add up in the order of the calls.
unfoldable pub gains : List Call → OrderManager → List String
gains [] s = []
gains (c ∷ cs) s = gained c s ++ gains cs (call c s).state

unfoldable pub losses : List Call → OrderManager → List String
losses [] s = []
losses (c ∷ cs) s = lost c s ++ losses cs (call c s).state

-- Over any history of calls the ids of the orders listed at the end, together with those of the
-- orders that were being brewed at an emergency stop, are the ids listed at the start together
-- with those accepted by `create_order` or loaded from the database, with multiplicity.
pub run-ledger :
    (cs : List Call) (s : OrderManager)
    → Perm (losses cs s ++ ledger (run cs s)) (gains cs s ++ ledger s)
unfolding run gains losses
run-ledger [] s = Perm.rfl
run-ledger (c ∷ cs) s =
    rw (append_assoc, append_assoc)
      (Perm.trans (Perm.append_left (lost c s) (run-ledger cs (call c s).state)) (
        Perm.trans (exchange (lost c s) (gains cs (call c s).state) _) (
          Perm.trans (Perm.append_left (gains cs (call c s).state) (call-ledger c s))
            (exchange (gains cs (call c s).state) (gained c s) (ledger s)))))
