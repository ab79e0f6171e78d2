-- ===== src/Decoder/Accepted.antt =====
-- stream_decode.cpp: the packets that a decoder accepts, and those that it hands out.
use otl.Common.{
  ℕ, zero, suc, ◌≡◌, refl, sym, ap, ◌∙◌, Bool, true, false, List, [], ◌∷◌, ◌++◌, Option, none, some,
  ◌==◌, ◌&&◌, ◌||◌, ◌/◌, ◌%◌, ltb, if◌then◌else◌, map, length, get_elem?, append-nil, append_assoc,
}
use mathlib.Core.List.{map-append}
use otl.Sei.{start_code, h264_sei_packet_read, h265_sei_packet_read}
use otl.Decoder.{
  Codec, h264, h265, other, Packet, Call, observer_frame, func_frame, observer_sei, func_sei,
  observer_eof, func_eof, func_closed, Hooks, Decoder, Sent, Received, context, decode_frame,
  at_code, is_key_frame, and_then, read_content, call_if, sei_calls, h264_after_code, h265_second,
  h265_after_code, read_sei, memory, call, put_packet, front_of, behind_front, get_packet,
  after_decode, on_read_frame,
}

-- A packet that the demuxer hands over, and what the decoder answers to it.
pub record Input : Type 0 where
  pub packet : Packet
  pub sent : Sent
  pub received : Received

unfoldable pub run : Decoder → List Input → Option Decoder
run d [] = some d
run d (i ∷ rest) = and_then (on_read_frame d i.packet i.sent i.received) (λ r. run r.0 rest)

-- Who is told of a picture, `mOnDecodedFrameFunc` or the observer, and the packets in these calls.
abbrev pub frame_of : Bool → Call → List (Option Packet)
frame_of who (func_frame p) = if who then p ∷ [] else []
frame_of who (observer_frame p) = if who then [] else p ∷ []
frame_of who (observer_sei n c t o) = []
frame_of who (func_sei n c t o) = []
frame_of who observer_eof = []
frame_of who func_eof = []
frame_of who func_closed = []

abbrev pub frames_to : Bool → List Call → List (Option Packet)
frames_to who [] = []
frames_to who (c ∷ cs) = frame_of who c ++ frames_to who cs

-- Whether there is one, of an observer and a function that are set or not.
abbrev pub hears : Bool → Bool → Bool → Bool
hears true observer func = func
hears false observer func = observer

heard_by :
    (who o f : Bool) (x : Option Packet)
    → hears who o f ≡ true
    → frames_to who (call_if o (observer_frame x) ++ call_if f (func_frame x)) ≡ x ∷ []
heard_by true true true x h = refl
heard_by true false true x h = refl
heard_by true o false x h = absurd (cc h)
heard_by false true true x h = refl
heard_by false true false x h = refl
heard_by false false f x h = absurd (cc h)

-- The inputs of the video stream; those from the first key frame on, while the decoder waits for one;
-- and the packets that it did not refuse.
abbrev pub video : ℕ → List Input → List Input
video index [] = []
video index (i ∷ rest) =
    if index == i.packet.stream_index then i ∷ video index rest else video index rest

abbrev pub is_known : Option Bool → Bool
is_known none = false
is_known (some b) = b

abbrev pub from_key : Option Codec → Bool → List Input → List Input
from_key codec false inputs = inputs
from_key codec true [] = []
from_key codec true (i ∷ rest) =
    if is_known (is_key_frame codec i.packet) then i ∷ rest else from_key codec true rest

abbrev pub unless_refused : Option ℕ → Packet → List Packet
unless_refused none p = []
unless_refused (some n) p = p ∷ []

abbrev pub taken_packets : List Input → List Packet
taken_packets [] = []
taken_packets (i ∷ rest) =
    unless_refused (decode_frame i.sent i.received) i.packet ++ taken_packets rest

abbrev pub accepted : Decoder → List Input → List Packet
accepted d inputs = taken_packets (
    from_key (context d.external_dec_ctx d.dec_ctx) d.is_waiting_iframe
      (video d.video_stream_index inputs))

pub and_then_rule :
    {A B : Type 0} (P : Option B → Type 0) (o : Option A) (f : A → Option B)
    → P none
    → ((a : A) → o ≡ some a → P (f a))
    → P (and_then o f)
and_then_rule P none f p q = p
and_then_rule P (some a) f p q = q a refl

front-append :
    (ps : List Packet) (p : Packet)
    → front_of (ps ++ (p ∷ [])) ∷ map some (behind_front (ps ++ (p ∷ [])))
      ≡ map some ps ++ (some p ∷ [])
front-append [] p = refl
front-append (q ∷ ps) p = ap (λ w. some q ∷ w) (map-append some ps (p ∷ []))

module _ (who : Bool) where
  frames-append :
      (xs ys : List Call) → frames_to who (xs ++ ys) ≡ frames_to who xs ++ frames_to who ys
  frames-append [] ys = refl
  frames-append (x ∷ xs) ys =
      ap (λ zs. frame_of who x ++ zs) (frames-append xs ys)
      ∙ sym (append_assoc (frame_of who x) (frames_to who xs) (frames_to who ys))

  -- The packets that were handed out, and those that wait.
  abbrev pub total : Decoder → List (Option Packet)
  total d = frames_to who d.calls ++ map some d.list_packets

  abbrev pub NoFrames : Option (List Call) → Type 0
  NoFrames none = Unit
  NoFrames (some cs) = frames_to who cs ≡ []

  frames-sei_calls :
      (observer func : Bool) (p : Packet) (sei : ℕ × List ℕ)
      → frames_to who (sei_calls observer func p sei) ≡ []
  frames-sei_calls observer func p (size, content) = by_size (ltb 0 size)
    where
      calls : Bool → Bool → List Call
      calls a b =
          call_if a (observer_sei size content p.pts p.pos)
          ++ call_if b (func_sei size content p.pts p.pos)

      by_calls : (a b : Bool) → frames_to who (calls a b) ≡ []
      by_calls true true = refl
      by_calls true false = refl
      by_calls false true = refl
      by_calls false false = refl

      by_size : (b : Bool) → frames_to who (if b then calls observer func else []) ≡ []
      by_size true = by_calls observer func
      by_size false = refl

  if_NoFrames :
      (b : Bool) (o : Option (List Call)) → NoFrames o → NoFrames (if b then o else some [])
  if_NoFrames true o h = h
  if_NoFrames false o h = refl

  h265_second_frames :
      (hooks : Hooks) (p : Packet) (header : ℕ) → NoFrames (h265_second hooks p header)
  h265_second_frames hooks p header =
      if_NoFrames (header / 2 % 64 == 39 && (hooks.observer || hooks.on_sei)) _ (
        and_then_rule NoFrames (read_content (h264_sei_packet_read p.bytes (some (length p.bytes))))
          _ tt (λ sei e. frames-sei_calls hooks.observer hooks.on_sei p sei))

  pub read_sei_frames :
      (codec : Codec) (hooks : Hooks) (p : Packet) → NoFrames (read_sei codec hooks p)
  unfolding read_sei
  read_sei_frames other hooks p = refl
  read_sei_frames h264 hooks p =
      and_then_rule NoFrames (at_code start_code (memory p)) (h264_after_code hooks p) tt
        (λ b e. by_code b)
    where
      by_code : (b : Bool) → NoFrames (h264_after_code hooks p b)
      by_code false = refl
      by_code true =
          and_then_rule NoFrames
            (read_content (h264_sei_packet_read p.bytes (some (length p.bytes)))) _ tt
            (λ sei e. frames-sei_calls false hooks.on_sei p sei)
  read_sei_frames h265 hooks p =
      and_then_rule NoFrames (at_code start_code (memory p)) (h265_after_code hooks p) tt
        (λ b e. by_code b)
    where
      by_code : (b : Bool) → NoFrames (h265_after_code hooks p b)
      by_code false = refl
      by_code true =
          and_then_rule NoFrames
            (read_content (h265_sei_packet_read p.bytes (some (length p.bytes)))) _ tt
            (λ sei e.
              and_then_rule NoFrames (get_elem? (memory p) 4) (h265_second hooks p) tt
                (λ header f. h265_second_frames hooks p header))

  -- The picture's calls hand out the first packet of the list.
  reported :
      (o f : Bool) (calls : List Call) (ps : List Packet) (p : Packet)
      → hears who o f ≡ true
      → frames_to who (
            calls
            ++ (call_if o (observer_frame (front_of (ps ++ (p ∷ []))))
                ++ call_if f (func_frame (front_of (ps ++ (p ∷ []))))))
          ++ map some (behind_front (ps ++ (p ∷ [])))
        ≡ (frames_to who calls ++ map some ps) ++ (some p ∷ [])
  reported o f calls ps p h =
      ap (λ w. w ++ map some (behind_front (ps ++ (p ∷ []))))
        (frames-append calls _
          ∙ ap (λ w. frames_to who calls ++ w) (heard_by who o f (front_of (ps ++ (p ∷ []))) h))
      ∙ append_assoc (frames_to who calls) (front_of (ps ++ (p ∷ [])) ∷ [])
          (map some (behind_front (ps ++ (p ∷ []))))
      ∙ ap (λ w. frames_to who calls ++ w) (front-append ps p)
      ∙ sym (append_assoc (frames_to who calls) (map some ps) (some p ∷ []))

  pub after_decode-total :
      (d : Decoder) (p : Packet) (o : Option ℕ)
      → hears who d.hooks.observer d.hooks.on_frame ≡ true
      → total (after_decode d p o).0 ≡ total d ++ map some (unless_refused o p)
  unfolding put_packet get_packet
  after_decode-total d p none h = sym (append-nil (total d))
  after_decode-total d p (some zero) h =
      ap (λ w. frames_to who d.calls ++ w) (map-append some d.list_packets (p ∷ []))
      ∙ sym (append_assoc (frames_to who d.calls) (map some d.list_packets) (some p ∷ []))
  after_decode-total d p (some (suc n)) h =
      reported d.hooks.observer d.hooks.on_frame d.calls d.list_packets p h

  pub total-call :
      (d : Decoder) (cs : List Call) → frames_to who cs ≡ [] → total (call d cs) ≡ total d
  total-call d cs h =
      ap (λ w. w ++ map some d.list_packets)
        (frames-append d.calls cs
          ∙ ap (λ w. frames_to who d.calls ++ w) h
          ∙ append-nil (frames_to who d.calls))
