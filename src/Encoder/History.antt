-- ===== src/Encoder/History.antt =====
-- stream_encoder.cpp: a history of calls.
use otl.Common.{
  ◌+◌, ◌≡◌, refl, sym, ap, ap₂, subst, ◌∙◌, arith, Bool, true, false, List, [], ◌∷◌, ◌++◌,
  append-nil, append_assoc, Option, none, some, All, length, length-append, if◌then◌else◌,
}
use otl.Common.Int.{ℤ}
use otl.Encoder.{
  Encoder, Context, Frame, Sent, taken, Received, packet, Status, ok, drain_after, encode,
  encode_with, encode_one, encode_one_with, one_after, receive_one, send, request_key_frame,
}
use otl.Encoder.Packets.{
  Call, encodes, encodes_one, requests, counted, gives, ready, verdict, IsFinite, drain_lem, kept,
  call, calls_on, ready_after, ready_in, ready_in_all, IsAnswered, stops, counted_none,
}

abbrev pub marked : Bool → Option Frame → Option Frame
marked b none = none
marked b (some f) = some (if b then record f { key = true } else f)

module _ {P : Type 0} where
  -- Whether a request waits after a call.
  abbrev pub flag_after : Bool → Call P → Bool
  flag_after b (encodes none s answers) = b
  flag_after b (encodes (some f) s answers) = false
  flag_after b (encodes_one none s r) = b
  flag_after b (encodes_one (some f) s r) = false
  flag_after b requests = true

  abbrev pub flag_after_all : Bool → List (Call P) → Bool
  flag_after_all b [] = b
  flag_after_all b (c ∷ cs) = flag_after_all (flag_after b c) cs

  -- What a call gives to `avcodec_send_frame`.
  abbrev pub sent_in : Bool → Call P → List (Option Frame)
  sent_in b (encodes frame s answers) = marked b frame ∷ []
  sent_in b (encodes_one frame s r) = marked b frame ∷ []
  sent_in b requests = []

  abbrev pub sent_in_all : Bool → List (Call P) → List (Option Frame)
  sent_in_all b [] = []
  sent_in_all b (c ∷ cs) = sent_in b c ++ sent_in_all (flag_after b c) cs

  flag_one :
      (b : Bool) (f : Option Frame) (s : Sent) (r : Received P)
      → flag_after b (encodes_one f s r) ≡ flag_after b (encodes f s (r ∷ []))
  flag_one b none s r = refl
  flag_one b (some f) s r = refl

module _ {C : Type 0} where
  send_counter : (e : Encoder C) (f : Option Frame) → (send e f).frame_count ≡ e.frame_count
  unfolding send
  send_counter e none = refl
  send_counter e (some f) = refl

  send_ctx : (e : Encoder C) (f : Option Frame) → (send e f).ctx ≡ e.ctx
  unfolding send
  send_ctx e none = refl
  send_ctx e (some f) = refl

  send_sent :
      (e : Encoder C) (f : Option Frame) → (send e f).sent ≡ e.sent ++ (marked e.force_idr f ∷ [])
  unfolding send
  send_sent e none = refl
  send_sent e (some f) = refl

module _ {C P : Type 0} where
  -- What calls lead to.
  pub record Handed (e : Encoder C) (out more : List P) (flag : Bool) (frames : List (Option Frame))
      (r : Option (Encoder C × List P)) : Type 0 where
    pub last : Encoder C
    pub returns : r ≡ some (last, out ++ more)
    pub counter : last.frame_count ≡ e.frame_count + length more
    pub ctx_same : last.ctx ≡ e.ctx
    pub flag_set : last.force_idr ≡ flag
    pub frames_sent : last.sent ≡ e.sent ++ frames

  send_flag :
      (e : Encoder C) (f : Option Frame) (s : Sent) (answers : List (Received P))
      → (send e f).force_idr ≡ flag_after e.force_idr (encodes f s answers)
  unfolding send
  send_flag e none s answers = refl
  send_flag e (some f) s answers = refl

  -- What follows a frame, in either `encode`.
  after_send :
      (e : Encoder C) (f : Option Frame) (s : Sent) (answers : List (Received P)) (out : List P)
      (r : Option (Encoder C × List P × Status)) (status : Status) (more : List P)
      → r ≡ gives (counted (send e f) (length more)) more status
      → Handed e out more
          (flag_after e.force_idr (encodes f s answers))
          (marked e.force_idr f ∷ [])
          (kept out r)
  after_send e f s answers out r status more h = record {
    last = counted (send e f) (length more);
    returns = ap (kept out) h;
    counter = ap (λ n. n + length more) (send_counter e f);
    ctx_same = send_ctx e f;
    flag_set = send_flag e f s answers;
    frames_sent = send_sent e f;
  }

  after_failure :
      (e : Encoder C) (f : Option Frame) (n : ℤ) (answers : List (Received P)) (out : List P)
      → Handed e out []
          (flag_after e.force_idr (encodes f (Sent.failed n) answers))
          (marked e.force_idr f ∷ [])
          (kept out (gives (send e f) [] (Status.failed n)))
  after_failure e f n answers out =
      after_send e f (Sent.failed n) answers out (gives (send e f) [] (Status.failed n))
        (Status.failed n) [] (ap (λ e. gives e [] (Status.failed n)) (counted_none (send e f)))

  encodes-Handed :
      (e : Encoder C) (c : Context C) (f : Option Frame) (s : Sent) (answers : List (Received P))
      (out : List P)
      → e.ctx ≡ some c
      → IsFinite answers
      → Handed e out
          (ready_after s answers)
          (flag_after e.force_idr (encodes f s answers))
          (marked e.force_idr f ∷ [])
          (kept out (encode e f s answers))
  unfolding encode
  encodes-Handed e c f s answers out h fin =
      subst
        (λ o.
          Handed e out (ready_after s answers) (flag_after e.force_idr (encodes f s answers))
            (marked e.force_idr f ∷ []) (kept out (encode_with o e f s answers)))
        (sym h) (go s)
    where
      go :
          (s : Sent)
          → Handed e out
              (ready_after s answers)
              (flag_after e.force_idr (encodes f s answers))
              (marked e.force_idr f ∷ [])
              (kept out (drain_after (send e f) s answers))
      go taken =
          after_send e f taken answers out _ (verdict answers) (ready answers)
            (drain_lem (send e f) answers [] fin)
      go Sent.again =
          after_send e f Sent.again answers out _ (verdict answers) (ready answers)
            (drain_lem (send e f) answers [] fin)
      go Sent.eof =
          after_send e f Sent.eof answers out _ (verdict answers) (ready answers)
            (drain_lem (send e f) answers [] fin)
      go (Sent.failed n) = after_failure e f n answers out

  receive_one_lem :
      (e : Encoder C) (r : Received P)
      → some (receive_one e r)
        ≡ gives (counted e (length (ready (r ∷ [])))) (ready (r ∷ [])) (verdict (r ∷ []))
  receive_one_lem e (packet p) = refl
  receive_one_lem e Received.again = stops e [] ok
  receive_one_lem e Received.eof = stops e [] ok
  receive_one_lem e Received.no_memory = stops e [] Status.no_memory
  receive_one_lem e (Received.failed n) = stops e [] (Status.failed n)

  encodes_one-Handed :
      (e : Encoder C) (c : Context C) (f : Option Frame) (s : Sent) (r : Received P) (out : List P)
      → e.ctx ≡ some c
      → Handed e out
          (ready_after s (r ∷ []))
          (flag_after e.force_idr (encodes_one f s r))
          (marked e.force_idr f ∷ [])
          (kept out (some (encode_one e f true s r)))
  unfolding encode_one
  encodes_one-Handed e c f s r out h =
      subst
        (λ b.
          Handed e out (ready_after s (r ∷ [])) b (marked e.force_idr f ∷ [])
            (kept out (some (encode_one e f true s r))))
        (sym (flag_one e.force_idr f s r))
        (subst
          (λ o.
            Handed e out (ready_after s (r ∷ [])) (flag_after e.force_idr (encodes f s (r ∷ [])))
              (marked e.force_idr f ∷ []) (kept out (some (encode_one_with o e f true s r))))
          (sym h) (go s))
    where
      go :
          (s : Sent)
          → Handed e out
              (ready_after s (r ∷ []))
              (flag_after e.force_idr (encodes f s (r ∷ [])))
              (marked e.force_idr f ∷ [])
              (kept out (some (one_after (send e f) s r)))
      go taken =
          after_send e f taken (r ∷ []) out _ (verdict (r ∷ [])) (ready (r ∷ []))
            (receive_one_lem (send e f) r)
      go Sent.again =
          after_send e f Sent.again (r ∷ []) out _ (verdict (r ∷ [])) (ready (r ∷ []))
            (receive_one_lem (send e f) r)
      go Sent.eof =
          after_send e f Sent.eof (r ∷ []) out _ (verdict (r ∷ [])) (ready (r ∷ []))
            (receive_one_lem (send e f) r)
      go (Sent.failed n) = after_failure e f n (r ∷ []) out

  call-Handed :
      (e : Encoder C) (c : Context C) (x : Call P) (out : List P)
      → e.ctx ≡ some c
      → IsAnswered x
      → Handed e out (ready_in x) (flag_after e.force_idr x) (sent_in e.force_idr x) (call e out x)
  unfolding request_key_frame
  call-Handed e c (encodes f s answers) out h i = encodes-Handed e c f s answers out h i
  call-Handed e c (encodes_one f s r) out h i = encodes_one-Handed e c f s r out h
  call-Handed e c requests out h i = record {
    last = request_key_frame e;
    returns = ap (λ l. some (request_key_frame e, l)) (sym (append-nil out));
    counter = omega arith;
    ctx_same = refl;
    flag_set = refl;
    frames_sent = sym (append-nil e.sent);
  }

  -- Let the encoder be set up, and let FFmpeg in each call give out only so many packets. Then any
  -- calls of the two `encode`s and of `requestKeyFrame` return; what they hand out is, in order, what
  -- FFmpeg had ready in them, all of it for the one with the vector and at most one packet for the
  -- other, and nothing where the frame was refused with an error; the counter grows by its number.
  -- The frames given to FFmpeg are those of the calls, each made a key frame exactly if a request was
  -- pending at the start or made since the frame before it.
  pub calls_on-Handed :
      (e : Encoder C) (c : Context C) (xs : List (Call P)) (out : List P)
      → e.ctx ≡ some c
      → All IsAnswered xs
      → Handed e out
          (ready_in_all xs)
          (flag_after_all e.force_idr xs)
          (sent_in_all e.force_idr xs)
          (calls_on (some (e, out)) xs)
  calls_on-Handed e c [] out h i = record {
    last = e;
    returns = ap (λ l. some (e, l)) (sym (append-nil out));
    counter = omega arith;
    ctx_same = refl;
    flag_set = refl;
    frames_sent = sym (append-nil e.sent);
  }
  calls_on-Handed e c (x ∷ xs) out h i =
      let one = call-Handed e c x out h i.0 in
      let more = calls_on-Handed one.last c xs (out ++ ready_in x) (one.ctx_same ∙ h) i.1 in
      record {
        last = more.last;
        returns =
            ap (λ o. calls_on o xs) one.returns
            ∙ more.returns
            ∙ ap (λ l. some (more.last, l)) (append_assoc out (ready_in x) (ready_in_all xs));
        counter =
            omega (arith, one.counter, more.counter, length-append (ready_in x) (ready_in_all xs));
        ctx_same = more.ctx_same ∙ one.ctx_same;
        flag_set = more.flag_set ∙ ap (λ b. flag_after_all b xs) one.flag_set;
        frames_sent =
            more.frames_sent
            ∙ ap₂ (λ l b. l ++ sent_in_all b xs) one.frames_sent one.flag_set
            ∙ append_assoc e.sent (sent_in e.force_idr x)
                (sent_in_all (flag_after e.force_idr x) xs);
      }
