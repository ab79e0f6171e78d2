-- ===== src/Outputer/Shape.antt =====
-- stream_pusher.h: the order of what is written to the output, whatever the stamps are.
use otl.Common.{
  ◌≡◌, refl, Bool, ap, ◌∙◌, true, false, not, ◌&&◌, List, [], ◌∷◌, Option, none, some,
  if◌then◌else◌,
}
use otl.Common.Int.{ℤ, ltb_ℤ}
use otl.Outputer.{Event, header, trailer, frame}
use otl.Outputer.Mux.{Phase, closed, opened, is_above, stamped, allowed, follow}

-- What may come while no stream is open, and while one is; and whether one is open then.
abbrev pub comes : Bool → Event → Option Bool
comes false header = some true
comes false trailer = none
comes false (frame p) = none
comes true header = none
comes true trailer = some false
comes true (frame p) = some true

abbrev pub come : Option Bool → List Event → Option Bool
come o [] = o
come none (e ∷ es) = none
come (some b) (e ∷ es) = come (comes b e) es

abbrev is_open : Phase → Bool
is_open closed = false
is_open (opened last) = true

abbrev opens : Option Phase → Option Bool
opens none = none
opens (some p) = some (is_open p)

-- What the check of the stamps lets through, the check without their order lets through.
abbrev Weaker : Option Phase → Option Bool → Type 0
Weaker none o = Unit
Weaker (some p) o = o ≡ some (is_open p)

stamped-Weaker : (last pts dts : Option ℤ) → Weaker (stamped last pts dts) (some true)
stamped-Weaker last none dts = tt
stamped-Weaker last (some p) none = tt
stamped-Weaker last (some p) (some t) = go (is_above last t && not (ltb_ℤ p t))
  where
    go : (b : Bool) → Weaker (if b then some (opened (some t)) else none) (some true)
    go true = refl
    go false = tt

allowed-Weaker : (p : Phase) (e : Event) → Weaker (allowed p e) (comes (is_open p) e)
allowed-Weaker closed header = refl
allowed-Weaker closed trailer = tt
allowed-Weaker closed (frame p) = tt
allowed-Weaker (opened last) header = tt
allowed-Weaker (opened last) trailer = refl
allowed-Weaker (opened last) (frame p) = stamped-Weaker last p.pts p.dts

pub follow-come :
    (o : Option Phase) (b : Option Bool) (es : List Event) (q : Phase)
    → Weaker o b
    → follow o es ≡ some q
    → (c : Bool) × (come b es ≡ some c)
follow-come none b [] q w h = absurd (cc h)
follow-come none b (e ∷ es) q w h = absurd (cc h)
follow-come (some p) b [] q w h = (is_open p, w)
follow-come (some p) b (e ∷ es) q w h =
    let (c, k) = follow-come (allowed p e) (comes (is_open p) e) es q (allowed-Weaker p e) h in
    (c, ap (λ o. come o (e ∷ es)) w ∙ k)
