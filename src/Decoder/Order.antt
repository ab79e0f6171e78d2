-- ===== src/Decoder/Order.antt =====
-- stream_decode.cpp: packets are handed out with the pictures in order.
use otl.Common.{
  ℕ, zero, suc, ◌≡◌, refl, sym, ap, subst, ◌∙◌, Bool, Bool-cases, inl, inr, true, false, not, List,
  [], ◌∷◌, ◌++◌, Option, none, some, ◌==◌, if◌then◌else◌, map, append-nil, append_assoc,
}
use mathlib.Core.List.{map-append}
use otl.Decoder.{
  Codec, Packet, Call, Decoder, context, decode_frame, is_key_frame, and_then, read_sei, call,
  put_packet, get_packet, after_decode, waits_after, decode_sei, decode_unless, on_read_frame,
}
use otl.Decoder.Accepted.{
  Input, run, frames_to, hears, video, is_known, from_key, unless_refused, taken_packets, accepted,
  total, and_then_rule, NoFrames, read_sei_frames, after_decode-total, total-call,
}

waits_true :
    (k : Option Bool) (x y : List Input)
    → and_then k (λ key. some (not key)) ≡ some true
    → (if is_known k then x else y) ≡ y
waits_true none x y h = absurd (cc h)
waits_true (some true) x y h = absurd (cc h)
waits_true (some false) x y h = refl

waits_false :
    (k : Option Bool) (x y : List Input)
    → and_then k (λ key. some (not key)) ≡ some false
    → (if is_known k then x else y) ≡ x
waits_false none x y h = absurd (cc h)
waits_false (some true) x y h = refl
waits_false (some false) x y h = absurd (cc h)

abbrev wait_test : Option Codec → Bool → Packet → Option Bool
wait_test codec b p =
    if b then and_then (is_key_frame codec p) (λ key. some (not key)) else some false

still_waits :
    (codec : Option Codec) (b : Bool) (i : Input) (v : List Input)
    → wait_test codec b i.packet ≡ some true
    → from_key codec b (i ∷ v) ≡ from_key codec b v
still_waits codec false i v h = absurd (cc h)
still_waits codec true i v h =
    waits_true (is_key_frame codec i.packet) (i ∷ v) (from_key codec true v) h

waits_no_more :
    (codec : Option Codec) (b : Bool) (i : Input) (v : List Input)
    → wait_test codec b i.packet ≡ some false
    → from_key codec b (i ∷ v) ≡ i ∷ v
waits_no_more codec false i v h = refl
waits_no_more codec true i v h =
    waits_false (is_key_frame codec i.packet) (i ∷ v) (from_key codec true v) h

module _ (who : Bool) where
  -- What a step keeps, when it returns.
  abbrev Kept : Decoder → Input → List Input → Option (Decoder × Option ℕ) → Type 0
  Kept d i rest none = Unit
  Kept d i rest (some (e, n)) =
      (e.hooks ≡ d.hooks)
      × (total who e ++ map some (accepted e rest)
          ≡ total who d ++ map some (accepted d (i ∷ rest)))

  -- What the decoder, which does not wait for a key frame, keeps with a packet of its stream.
  abbrev Decoded : Decoder → Input → List Input → Decoder → Type 0
  Decoded d i rest e =
      (e.hooks ≡ d.hooks)
      × (total who e ++ map some (accepted e rest)
          ≡ total who d ++ map some (taken_packets (i ∷ video d.video_stream_index rest)))

  joins_taken :
      (T U : List (Option Packet)) (i : Input) (later : List Input)
      → T ≡ U ++ map some (unless_refused (decode_frame i.sent i.received) i.packet)
      → T ++ map some (taken_packets later) ≡ U ++ map some (taken_packets (i ∷ later))
  joins_taken T U i later h =
      ap (λ w. w ++ map some (taken_packets later)) h
      ∙ append_assoc U (map some one) (map some (taken_packets later))
      ∙ ap (λ w. U ++ w) (sym (map-append some one (taken_packets later)))
    where
      one : List Packet
      one = unless_refused (decode_frame i.sent i.received) i.packet

  after_decode-Decoded :
      (d : Decoder) (i : Input) (rest : List Input) (o : Option ℕ)
      → hears who d.hooks.observer d.hooks.on_frame ≡ true
      → d.is_waiting_iframe ≡ false
      → decode_frame i.sent i.received ≡ o
      → Decoded d i rest (after_decode d i.packet o).0
  unfolding put_packet get_packet
  after_decode-Decoded d i rest o h w e = (
    hooks_of o,
    ap (λ ps. total who (after_decode d i.packet o).0 ++ map some ps) (accepted_of o)
        ∙ joins_taken (total who (after_decode d i.packet o).0) (total who d) i
            (video d.video_stream_index rest)
            (after_decode-total who d i.packet o h
              ∙ ap (λ q. total who d ++ map some (unless_refused q i.packet)) (sym e)),
  )
    where
      hooks_of : (o : Option ℕ) → (after_decode d i.packet o).0.hooks ≡ d.hooks
      hooks_of none = refl
      hooks_of (some zero) = refl
      hooks_of (some (suc n)) = refl

      later : accepted d rest ≡ taken_packets (video d.video_stream_index rest)
      later =
          ap
            (λ b.
              taken_packets (
                from_key (context d.external_dec_ctx d.dec_ctx) b
                  (video d.video_stream_index rest)))
            w

      accepted_of :
          (o : Option ℕ)
          → accepted (after_decode d i.packet o).0 rest
            ≡ taken_packets (video d.video_stream_index rest)
      accepted_of none = later
      accepted_of (some zero) = later
      accepted_of (some (suc n)) = later

  -- The same of an optional result.
  abbrev MaybeDecoded : Decoder → Input → List Input → Option (Decoder × Option ℕ) → Type 0
  MaybeDecoded d i rest none = Unit
  MaybeDecoded d i rest (some (e, n)) = Decoded d i rest e

  decode_sei-Decoded :
      (d : Decoder) (i : Input) (rest : List Input) (codec : Option Codec)
      → hears who d.hooks.observer d.hooks.on_frame ≡ true
      → d.is_waiting_iframe ≡ false
      → MaybeDecoded d i rest (decode_sei d i.packet i.sent i.received codec)
  decode_sei-Decoded d i rest none h w = tt
  decode_sei-Decoded d i rest (some codec) h w =
      and_then_rule (MaybeDecoded d i rest) (read_sei codec d.hooks i.packet) _ tt
        (λ cs e. decoded cs (subst (NoFrames who) e (read_sei_frames who codec d.hooks i.packet)))
    where
      decoded :
          (cs : List Call)
          → frames_to who cs ≡ []
          → MaybeDecoded d i rest
              (some (after_decode (call d cs) i.packet (decode_frame i.sent i.received)))
      decoded cs n =
          let k =
            after_decode-Decoded (call d cs) i rest (decode_frame i.sent i.received) h w refl in
          (
            k.0,
            k.1
                ∙ ap (λ t. t ++ map some (taken_packets (i ∷ video d.video_stream_index rest)))
                    (total-call who d cs n),
          )

  on_read_frame-Kept :
      (d : Decoder) (i : Input) (rest : List Input)
      → hears who d.hooks.observer d.hooks.on_frame ≡ true
      → Kept d i rest (on_read_frame d i.packet i.sent i.received)
  unfolding on_read_frame
  on_read_frame-Kept d i rest h =
      elim (Bool-cases (d.video_stream_index == i.packet.stream_index)) [
        | inl e ↦
            subst (λ b. Kept d i rest (branch b)) (sym e)
              (and_then_rule (Kept d i rest) (waits_after d i.packet)
                (decode_unless d i.packet i.sent i.received) tt (λ w q. waited e w q))
        | inr e ↦
            subst (λ b. Kept d i rest (branch b)) (sym e)
              (refl, as_total (sym (ap wanted (is_video e))))
      ]
    where
      later : List Input
      later = video d.video_stream_index rest

      branch : Bool → Option (Decoder × Option ℕ)
      branch b =
          if b
          then and_then (waits_after d i.packet) (decode_unless d i.packet i.sent i.received)
          else some (d, some 0)

      is_video :
          {b : Bool}
          → (d.video_stream_index == i.packet.stream_index) ≡ b
          → video d.video_stream_index (i ∷ rest) ≡ (if b then i ∷ later else later)
      is_video e = ap (λ b. if b then i ∷ later else later) e

      wanted : List Input → List Input
      wanted v = from_key (context d.external_dec_ctx d.dec_ctx) d.is_waiting_iframe v

      as_total :
          {v w : List Input}
          → v ≡ w
          → total who d ++ map some (taken_packets v) ≡ total who d ++ map some (taken_packets w)
      as_total e = ap (λ v. total who d ++ map some (taken_packets v)) e

      decoded :
          (r : Option (Decoder × Option ℕ))
          → wanted (video d.video_stream_index (i ∷ rest)) ≡ i ∷ later
          → MaybeDecoded (record d { is_waiting_iframe = false }) i rest r
          → Kept d i rest r
      decoded none l k = tt
      decoded (some (e, n)) l k = (k.0, k.1 ∙ as_total (sym l))

      waited :
          (d.video_stream_index == i.packet.stream_index) ≡ true
          → (w : Bool) → waits_after d i.packet ≡ some w
          → Kept d i rest (decode_unless d i.packet i.sent i.received w)
      waited e true q = (
        refl,
        as_total (
            sym (
              ap wanted (is_video e)
              ∙ still_waits (context d.external_dec_ctx d.dec_ctx) d.is_waiting_iframe i later q)),
      )
      waited e false q =
          decoded (decode_unless d i.packet i.sent i.received false)
            (ap wanted (is_video e)
              ∙ waits_no_more (context d.external_dec_ctx d.dec_ctx) d.is_waiting_iframe i later q)
            (decode_sei-Decoded (record d { is_waiting_iframe = false }) i rest
              (context d.external_dec_ctx d.dec_ctx) h refl)

  abbrev RunKept : Decoder → List Input → Option Decoder → Type 0
  RunKept d inputs none = Unit
  RunKept d inputs (some e) = total who e ≡ total who d ++ map some (accepted d inputs)

  RunKept-nil : (d : Decoder) → RunKept d [] (some d)
  RunKept-nil d = sym (
      ap (λ l. total who d ++ map some (taken_packets l)) (none_left d.is_waiting_iframe)
      ∙ append-nil (total who d))
    where
      none_left : (b : Bool) → from_key (context d.external_dec_ctx d.dec_ctx) b [] ≡ []
      none_left true = refl
      none_left false = refl

  RunKept-cons :
      (d e : Decoder) (i : Input) (rest : List Input) (o : Option Decoder)
      → total who e ++ map some (accepted e rest) ≡ total who d ++ map some (accepted d (i ∷ rest))
      → RunKept e rest o
      → RunKept d (i ∷ rest) o
  RunKept-cons d e i rest none k h = tt
  RunKept-cons d e i rest (some f) k h = h ∙ k

  run-RunKept :
      (d : Decoder) (inputs : List Input)
      → hears who d.hooks.observer d.hooks.on_frame ≡ true
      → RunKept d inputs (run d inputs)
  unfolding run
  run-RunKept d [] h = RunKept-nil d
  run-RunKept d (i ∷ rest) h =
      and_then_rule (RunKept d (i ∷ rest)) (on_read_frame d i.packet i.sent i.received) _ tt (λ r e.
        let k = subst (Kept d i rest) e (on_read_frame-Kept d i rest h) in
        RunKept-cons d r.0 i rest (run r.0 rest) k.1
          (run-RunKept r.0 rest (ap (λ x. hears who x.observer x.on_frame) k.0 ∙ h)))

  -- For the function and for the observer alike (`who`), if it is set: when the calls of
  -- `onReadFrame` for some packets return, whatever the decoder answers, the packets that it was given
  -- with pictures, and behind them those that wait in the list, are the ones from before with the
  -- accepted packets behind them: those of the video stream, from the first key frame on if the
  -- decoder waited for one, that FFmpeg did not refuse. No packet is handed out twice or out of order,
  -- and no picture comes with a null pointer.
  pub run_keeps_order :
      (d e : Decoder) (inputs : List Input)
      → hears who d.hooks.observer d.hooks.on_frame ≡ true
      → run d inputs ≡ some e
      → frames_to who e.calls ++ map some e.list_packets
        ≡ (frames_to who d.calls ++ map some d.list_packets) ++ map some (accepted d inputs)
  run_keeps_order d e inputs h r = subst (RunKept d inputs) r (run-RunKept d inputs h)
