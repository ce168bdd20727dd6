-- ===== src/PendingActions/Requests.antt =====
-- src/session-events/pending-actions.ts: the requests that the walk keeps by thread, read off the events.
use Prim.Native.Char.{Char}
use openma_common.Common.{
  String, Bool, true, false, ◌&&◌, ◌||◌, not, Option, none, some, List, [], ◌∷◌, ite, if◌then◌else◌,
  String_discrete, ◌≡◌, refl, arith, sym, non_empty,
}
use openma_common.Common.Json.{
  Json, Items, Fields, null, bool, num, str, arr, obj, nil, cons, end, fields_of, text_at, property,
}
use openma_common.Common.Maps.{get, has, delete, set, UniqueKeys}
use openma_common.PendingActions.{
  event_thread_id, request_of, asked_ids, texts, texts_of, array_of, as_record, is_type, is, Walk,
  note_request, walk_event, walk_events,
}
use openma_common.PendingActions.Laws.{is_id, is_asked, note_request-UniqueKeys}
use openma_common.PendingActions.Spec.{
  has_type, names, lists, stop_reason, asks_for, ends_request, is_ended, is_requested,
}

-- Whether an entry of a map has an id and is of no thread that a test tells of.
abbrev kept_by : (String → Bool) → String → List (String × List String) → Bool
kept_by f id [] = false
kept_by f id ((thread, ids) ∷ m) =
    let others = kept_by f id m in (has id ids && not (f thread)) || others

-- A test that also tells of a thread.
abbrev or_thread : (String → Bool) → String → String → Bool
or_thread f thread t = ite (String_discrete thread t) true (f t)

kept_by-absent :
    (f : String → Bool) (thread id : String) (m : List (String × List String))
    → get thread m ≡ none
    → kept_by (or_thread f thread) id m ≡ kept_by f id m
unfolding get
kept_by-absent f thread id [] e = refl
kept_by-absent f thread id ((t, ids) ∷ m) e = ground (arith, kept_by-absent f thread id m)

kept_by-delete :
    (f : String → Bool) (thread id : String) (m : List (String × List String))
    → UniqueKeys m
    → kept_by f id (delete thread m) ≡ kept_by (or_thread f thread) id m
unfolding delete UniqueKeys
kept_by-delete f thread id [] u = refl
kept_by-delete f thread id ((t, ids) ∷ m) u =
    ground (arith, u.0, kept_by-delete f thread id m u.1, kept_by-absent f thread id m)

kept_by-set :
    (f : String → Bool) (thread id : String) (asked : List String) (m : List (String × List String))
    → UniqueKeys m
    → kept_by f id (set thread asked m)
      ≡ ((has id asked && not (f thread)) || kept_by (or_thread f thread) id m)
unfolding set UniqueKeys
kept_by-set f thread id asked [] u = refl
kept_by-set f thread id asked ((t, ids) ∷ m) u =
    ground (arith, u.0, kept_by-set f thread id asked m u.1, kept_by-absent f thread id m)

is-is_id : (o : Option String) (t : String) → is o t ≡ is_id o t
unfolding is
is-is_id none t = refl
is-is_id (some s) t = refl

non_empty-empty : (id : String) → "" ≡ id → non_empty id ≡ false
unfolding non_empty
non_empty-empty id e = rw (sym e) refl

non_empty-cons : (id : String) (c : Char) (s : String) → String.◌∷◌ c s ≡ id → non_empty id ≡ true
unfolding non_empty
non_empty-cons id c s e = rw (sym e) refl

has-texts : (id : String) (items : Items) → has id (texts items) ≡ (non_empty id && names id items)
unfolding texts has
has-texts id nil = ground arith
has-texts id (cons null items) = has-texts id items
has-texts id (cons (bool b) items) = has-texts id items
has-texts id (cons (num n) items) = has-texts id items
has-texts id (cons (arr inner) items) = has-texts id items
has-texts id (cons (obj fields) items) = has-texts id items
has-texts id (cons (str String.[]) items) = ground (arith, has-texts id items, non_empty-empty id)
has-texts id (cons (str (String.◌∷◌ c s)) items) =
    ground (arith, has-texts id items, non_empty-cons id c s)

is_asked-kept_by :
    (id : String) (m : List (String × List String)) → is_asked id m ≡ kept_by (λ t. false) id m
is_asked-kept_by id [] = refl
is_asked-kept_by id ((t, ids) ∷ m) = ground (arith, is_asked-kept_by id m)

has-lists : (id : String) (v : Option Json) → has id (texts_of (array_of v)) ≡ lists id v
unfolding texts_of array_of has
has-lists id none = refl
has-lists id (some null) = refl
has-lists id (some (bool b)) = refl
has-lists id (some (num n)) = refl
has-lists id (some (str s)) = refl
has-lists id (some (arr items)) = has-texts id items
has-lists id (some (obj fields)) = refl

as_record-fields_of : (v : Option Json) → as_record v ≡ elim v [ none ↦ end | some w ↦ fields_of w ]
unfolding as_record fields_of
as_record-fields_of none = refl
as_record-fields_of (some null) = refl
as_record-fields_of (some (bool b)) = refl
as_record-fields_of (some (num n)) = refl
as_record-fields_of (some (str s)) = refl
as_record-fields_of (some (arr items)) = refl
as_record-fields_of (some (obj fields)) = refl

as_record-stop_reason :
    (event : Fields) → as_record (property "stop_reason" event) ≡ stop_reason event
as_record-stop_reason event = as_record-fields_of (property "stop_reason" event)

pub is_type-has_type : (event : Fields) (t : String) → is_type event t ≡ has_type t event
unfolding is_type
is_type-has_type event t = is-is_id (text_at "type" event) t

has-asked_if :
    (id : String) (asks asks' : Bool) (v : Option Json)
    → asks ≡ asks'
    → has id (if asks then texts_of (array_of v) else []) ≡ (asks' && lists id v)
unfolding has
has-asked_if id true asks' v e = rw (sym e) (has-lists id v)
has-asked_if id false asks' v e = rw (sym e) refl

has-asked_ids :
    (id : String) (event : Fields)
    → has id (asked_ids event) ≡ (
        has_type "requires_action" (stop_reason event)
        && lists id (property "event_ids" (stop_reason event)))
unfolding asked_ids
has-asked_ids id event = rw (as_record-stop_reason event) (
    has-asked_if id (is_type (stop_reason event) "requires_action")
      (has_type "requires_action" (stop_reason event)) (property "event_ids" (stop_reason event))
      (is_type-has_type (stop_reason event) "requires_action"))

-- An idle event is no other.
is_id-idle :
    (o : Option String)
    → is_id o "session.status_idle" ≡ true
    → (is_id o "session.status_running" || is_id o "session.status_terminated") ≡ false
unfolding String_discrete
is_id-idle none e = refl
is_id-idle (some k) e = elim (String_discrete k "session.status_idle") [
  | yes same ↦ rw same refl
  | no other ↦ ground (arith, e, other)
]

kept_by-ext :
    (f g : String → Bool) (id : String) (m : List (String × List String))
    → ((t : String) → f t ≡ g t)
    → kept_by f id m ≡ kept_by g id m
kept_by-ext f g id [] e = refl
kept_by-ext f g id ((t, ids) ∷ m) e = ground (arith, e t, kept_by-ext f g id m e)

-- A test that also tells of an event's thread, if the event ends its request.
abbrev ended_by : (String → Bool) → Fields → String → Bool
ended_by f event t =
    (ends_request event && ite (String_discrete (event_thread_id event) t) true false) || f t

module _ (f : String → Bool) (id : String) (event : Fields) (m : List (String × List String)) where
  ended_by-thread :
      ends_request event ≡ true
      → kept_by (or_thread f (event_thread_id event)) id m ≡ kept_by (ended_by f event) id m
  ended_by-thread e =
      kept_by-ext (or_thread f (event_thread_id event)) (ended_by f event) id m
        (λ t. ground (arith, e))

  ended_by-none : ends_request event ≡ false → kept_by f id m ≡ kept_by (ended_by f event) id m
  ended_by-none e = kept_by-ext f (ended_by f event) id m (λ t. ground (arith, e))

  kept_by-note_request :
      UniqueKeys m
      → kept_by f id (note_request (request_of event) (event_thread_id event) m) ≡ (
          (asks_for id event && not (f (event_thread_id event))) || kept_by (ended_by f event) id m)
  unfolding note_request request_of
  kept_by-note_request u = ground (
    arith,
    is_type-has_type event "session.status_running",
    is_type-has_type event "session.status_terminated",
    is_type-has_type event "session.status_idle",
    is_id-idle (text_at "type" event),
    has-asked_ids id event,
    ended_by-thread,
    ended_by-none,
    kept_by-delete f (event_thread_id event) id m u,
    kept_by-set f (event_thread_id event) id (asked_ids event) m u,
  )

pub walk-requested :
    (w : Walk) (events : List Fields) (id : String)
    → UniqueKeys w.requested
    → is_asked id (walk_events w events).requested
      ≡ (is_requested id events || kept_by (λ t. is_ended t events) id w.requested)
unfolding walk_events walk_event
walk-requested w [] id u = is_asked-kept_by id w.requested
walk-requested w (event ∷ events) id u = ground (
  arith,
  walk-requested (walk_event w event) events id
      (note_request-UniqueKeys (request_of event) (event_thread_id event) w.requested u),
  kept_by-note_request (λ t. is_ended t events) id event w.requested u,
)
