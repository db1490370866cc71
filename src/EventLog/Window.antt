-- ===== src/EventLog/Window.antt =====
-- What `list` of backend/synqc_backend/orchestration/event_store.py shows after a row of appends.
use syn_qc_temporal_dynamics.Prelude.{
  ℕ, suc, ◌-◌, String, str_eq, eq_iff, ◌≡◌, refl, true, false, List, [], ◌∷◌, ◌++◌, arith, leb,
  if◌then◌else◌, length, take, length-drop, take-append-drop, ok, min, sym, ap, ◌∙◌, Bool-cases,
  inl, inr,
}
use mathlib.Core.List.{append_assoc, append-nil}
use syn_qc_temporal_dynamics.Prelude.Int.{pos}
use syn_qc_temporal_dynamics.Dict.{get, get-put}
use syn_qc_temporal_dynamics.Models.{Detail}
use syn_qc_temporal_dynamics.EventLog.{EventStore, stamped, events_of, append, window, list}

-- An append of any experiment.
abbrev pub Call : Type 0
Call = ℕ × String × Detail

unfoldable pub append_all : List Call → EventStore → EventStore
append_all [] s = s
append_all ((now, id, event) ∷ calls) s = append_all calls (append now id event s).0

-- The payloads that the calls append to one experiment, in order.
pub payloads : String → List Call → List Detail
payloads id [] = []
payloads id ((now, id', event) ∷ calls) =
    if str_eq id' id then stamped now event ∷ payloads id calls else payloads id calls

events_of-append :
    (now : ℕ) (id id' : String) (event : Detail) (s : EventStore)
    → events_of id (append now id' event s).0
      ≡ (if str_eq id' id then events_of id s ++ stamped now event ∷ [] else events_of id s)
unfolding append
events_of-append now id id' event s =
    ground (arith, eq_iff id' id, get-put id' id (events_of id' s ++ stamped now event ∷ []) s)

events_of-append_eq :
    (now : ℕ) (id id' : String) (event : Detail) (s : EventStore)
    → str_eq id' id ≡ true
    → events_of id (append now id' event s).0 ≡ events_of id s ++ stamped now event ∷ []
events_of-append_eq now id id' event s e = ground (arith, e, events_of-append now id id' event s)

events_of-append_ne :
    (now : ℕ) (id id' : String) (event : Detail) (s : EventStore)
    → str_eq id' id ≡ false
    → events_of id (append now id' event s).0 ≡ events_of id s
events_of-append_ne now id id' event s e = ground (arith, e, events_of-append now id id' event s)

events_of-append_all :
    (calls : List Call) (id : String) (s : EventStore)
    → events_of id (append_all calls s) ≡ events_of id s ++ payloads id calls
unfolding append_all payloads
events_of-append_all [] id s = sym (append-nil _)
events_of-append_all ((now, id', event) ∷ calls) id s = elim (Bool-cases (str_eq id' id)) [
  | inl e ↦ rw e (
      events_of-append_all calls id (append now id' event s).0
      ∙ ap (λ l. l ++ payloads id calls) (events_of-append_eq now id id' event s e)
      ∙ append_assoc (events_of id s) (stamped now event ∷ []) (payloads id calls))
  | inr e ↦ rw e (
      events_of-append_all calls id (append now id' event s).0
      ∙ ap (λ l. l ++ payloads id calls) (events_of-append_ne now id id' event s e))
]

window_suffix :
    (items : List Detail) (limit : ℕ)
    → (take (length items - limit) items ++ window items limit ≡ items)
      × (length (window items limit) ≡ min limit (length items))
unfolding window
window_suffix items limit = elim (Bool-cases (leb (length items) limit)) [
  | inl fits ↦
      let none_cut : length items - limit ≡ 0 = ground arith in
      rw (fits, none_cut) (refl, ground arith)
  | inr over ↦ rw over (
    take-append-drop (length items - limit) items,
    ground (arith, length-drop (length items - limit) items),
  )
]

-- After any row of appends to any experiments, `list` with a positive limit shows the newest
-- events of its experiment: as many as the limit allows, in the order of the appends, and with an
-- `earlier` part they make up all the events that were appended to it.
pub list_newest :
    (calls : List Call) (id : String) (n : ℕ)
    → (earlier : List Detail) × (shown : List Detail) × (list id (pos (suc n)) (append_all calls [])
        ≡ ok shown)
      × (earlier ++ shown ≡ payloads id calls)
      × (length shown ≡ min (suc n) (length (payloads id calls)))
unfolding list get
list_newest calls id n =
    let all = payloads id calls in
    let e : events_of id (append_all calls []) ≡ all = events_of-append_all calls id [] in
    (
      take (length all - suc n) all,
      window all (suc n),
      rw e refl,
      (window_suffix all (suc n)).0,
      (window_suffix all (suc n)).1,
    )
