-- ===== src/Demuxer/Invariant.antt =====
-- stream_demuxer.cpp: whether the stream is open, by the state and the place of the thread.
use otl.Common.{
  ◌≡◌, refl, ap, Bool, true, false, List, [], ◌∷◌, ◌++◌, Option, none, some, if◌then◌else◌,
}
use otl.Demuxer.{
  State, initialize, service, down, Event, opened, closed, frame, eof, Place, idle, switching,
  initializing, serving, downing, exited, Demuxer, enter,
}

-- Whether a stream is open after an event, if the event may come then: a stream is not opened twice,
-- and frames and the end of the file come while it is open. It may be closed at any time.
abbrev pub allowed : Bool → Event → Option Bool
allowed false opened = some true
allowed true opened = none
allowed b closed = some false
allowed true frame = some true
allowed false frame = none
allowed true eof = some true
allowed false eof = none

abbrev pub follow : Option Bool → List Event → Option Bool
follow o [] = o
follow none (e ∷ es) = none
follow (some b) (e ∷ es) = follow (allowed b e) es

pub follow-append :
    (o : Option Bool) (xs : List Event) (e : Event) (b : Bool)
    → follow o xs ≡ some b
    → follow o (xs ++ (e ∷ [])) ≡ allowed b e
follow-append o [] e b h = ap (λ p. follow p (e ∷ [])) h
follow-append none (x ∷ xs) e b h = absurd (cc h)
follow-append (some c) (x ∷ xs) e b h = follow-append (allowed c x) xs e b h

abbrev pub is_service : State → Bool
is_service service = true
is_service initialize = false
is_service down = false

abbrev pub is_down : State → Bool
is_down down = true
is_down initialize = false
is_down service = false

abbrev pub PlaceOk : Place → Bool → State → Bool → Type 0
PlaceOk idle is_open st keeps = is_open ≡ false
PlaceOk switching is_open st keeps = Unit
PlaceOk initializing is_open st keeps = (is_open ≡ false) × (keeps ≡ true)
PlaceOk serving is_open st keeps = is_open ≡ true
PlaceOk downing is_open st keeps = st ≡ down
PlaceOk exited is_open st keeps = is_open ≡ false

-- Whether the stream is open, by the state and the place.
pub record Inv (d : Demuxer) : Type 0 where
  pub is_open : Bool
  pub trace : follow (some false) d.events ≡ some is_open
  pub in_service : d.work_state ≡ service → is_open ≡ true
  pub in_initialize : d.work_state ≡ initialize → is_open ≡ false
  pub stopped : d.keep_running ≡ false → is_open ≡ false
  pub at_place : PlaceOk d.place is_open d.work_state d.keep_running

pub allowed_closed : (b : Bool) → allowed b closed ≡ some false
allowed_closed true = refl
allowed_closed false = refl

pub enter-PlaceOk :
    (d : Demuxer) (v : Inv d) (st : State)
    → d.work_state ≡ st
    → d.keep_running ≡ true
    → PlaceOk (enter st) v.is_open d.work_state d.keep_running
enter-PlaceOk d v initialize e k = (v.in_initialize e, k)
enter-PlaceOk d v service e k = v.in_service e
enter-PlaceOk d v down e k = e

pub at_switch : {d : Demuxer} → Inv d → Inv (record d { place = switching })
at_switch v = record {
  is_open = v.is_open;
  trace = v.trace;
  in_service = v.in_service;
  in_initialize = v.in_initialize;
  stopped = v.stopped;
  at_place = tt;
}

pub switching-Inv :
    (d : Demuxer) (b : Bool)
    → d.keep_running ≡ b
    → Inv d
    → Inv (record d { place = if b then enter d.work_state else exited })
switching-Inv d true e v = record {
  is_open = v.is_open;
  trace = v.trace;
  in_service = v.in_service;
  in_initialize = v.in_initialize;
  stopped = v.stopped;
  at_place = enter-PlaceOk d v d.work_state refl e;
}
switching-Inv d false e v = record {
  is_open = v.is_open;
  trace = v.trace;
  in_service = v.in_service;
  in_initialize = v.in_initialize;
  stopped = v.stopped;
  at_place = v.stopped e;
}
