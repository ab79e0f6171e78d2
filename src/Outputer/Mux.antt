-- ===== src/Outputer/Mux.antt =====
-- stream_pusher.h: what FFmpeg's muxer asks for, and the state of the outputer that grants it.
use otl.Common.{
  ◌+◌, ◌≡◌, refl, ap, ◌∙◌, arith, Bool, true, false, not, ◌&&◌, List, [], ◌∷◌, ◌++◌, Option, none,
  some, if◌then◌else◌, lt→ltb, le→ltb,
}
use otl.Common.Int.{ℤ, pos, ltb_ℤ, pos_part, neg_part}
use otl.Smoother.{Blend, AvPacket}
use otl.Smoother.Order.{◌<ℤ◌, IsValid}
use otl.Outputer.{
  State, init, service, down, Event, header, trailer, frame, Place, idle, starting, switching,
  exited, Outputer,
}

-- Between a trailer and a header, or behind a header, with the stamp of the last frame.
pub data Phase : Type 0 where
  closed : Phase
  opened : Option ℤ → Phase

abbrev pub is_above : Option ℤ → ℤ → Bool
is_above none t = true
is_above (some l) t = ltb_ℤ l t

-- A frame has both stamps, the dts is above the one before, and the pts is not below it.
abbrev pub stamped : Option ℤ → Option ℤ → Option ℤ → Option Phase
stamped last none dts = none
stamped last (some p) none = none
stamped last (some p) (some t) =
    if is_above last t && not (ltb_ℤ p t) then some (opened (some t)) else none

abbrev pub allowed : Phase → Event → Option Phase
allowed closed header = some (opened none)
allowed closed trailer = none
allowed closed (frame p) = none
allowed (opened last) header = none
allowed (opened last) trailer = some closed
allowed (opened last) (frame p) = stamped last p.pts p.dts

abbrev pub follow : Option Phase → List Event → Option Phase
follow o [] = o
follow none (e ∷ es) = none
follow (some p) (e ∷ es) = follow (allowed p e) es

pub follow-append :
    (o : Option Phase) (xs : List Event) (e : Event) (p : Phase)
    → follow o xs ≡ some p
    → follow o (xs ++ (e ∷ [])) ≡ allowed p e
follow-append o [] e p h = ap (λ q. follow q (e ∷ [])) h
follow-append none (x ∷ xs) e p h = absurd (cc h)
follow-append (some c) (x ∷ xs) e p h = follow-append (allowed c x) xs e p h

is_above_lem :
    (last : Option ℤ) (t : ℤ) → ((l : ℤ) → last ≡ some l → l <ℤ t) → is_above last t ≡ true
is_above_lem none t h = refl
is_above_lem (some l) t h = lt→ltb _ _ (h l refl)

not_below : (t : ℤ) → ltb_ℤ t t ≡ false
not_below t = le→ltb (pos_part t + neg_part t) (pos_part t + neg_part t) (omega arith)

-- The smoother's packets are what is allowed.
pub stamped_lem :
    (last : Option ℤ) (p : AvPacket) (t : ℤ)
    → p.pts ≡ some t
    → p.dts ≡ some t
    → ((l : ℤ) → last ≡ some l → l <ℤ t)
    → stamped last p.pts p.dts ≡ some (opened (some t))
stamped_lem last p t e d h =
    ap (λ o. stamped last o p.dts) e
    ∙ ap (λ o. stamped last (some t) o) d
    ∙ ap (λ b. if b && not (ltb_ℤ t t) then some (opened (some t)) else none)
        (is_above_lem last t h)
    ∙ ap (λ b. if not b then some (opened (some t)) else none) (not_below t)

-- While the stream is open its state is `Service`, or it is being closed.
abbrev pub Going : State → Bool → Type 0
Going service repeat = Unit
Going down repeat = repeat ≡ false
Going init repeat = ⊥

abbrev pub PhaseOk : {F : Type 0} → Outputer F → Phase → Type 0
PhaseOk o closed = Unit
PhaseOk o (opened last) = (last ≡ o.smoother.last_output_pts) × Going o.output_state o.repeat

abbrev pub is_closed : Phase → Bool
is_closed closed = true
is_closed (opened last) = false

abbrev pub PlaceOk : Place → Bool → Phase → Type 0
PlaceOk idle is_running p = is_closed p ≡ true
PlaceOk starting is_running p = is_closed p ≡ false
PlaceOk switching is_running p = is_running ≡ not (is_closed p)
PlaceOk exited is_running p = is_closed p ≡ true

module _ {F : Type 0} (f : Blend F) where
  pub record Inv (o : Outputer F) : Type 0 where
    pub phase : Phase
    pub trace : follow (some closed) o.events ≡ some phase
    pub phase_ok : PhaseOk o phase
    pub place_ok : PlaceOk o.place o.is_running phase
    pub smooth : IsValid f o.smoother
    pub rising : pos 0 <ℤ o.smoother.min_increment
