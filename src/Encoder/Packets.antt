-- ===== src/Encoder/Packets.antt =====
-- stream_encoder.cpp: the packets that `encode` hands out.
use otl.Common.{
  ℕ, ◌+◌, ◌≡◌, sym, ap, ap₂, ◌∙◌, arith, true, List, [], ◌∷◌, ◌++◌, append-nil, append_assoc,
  Option, none, some, length,
}
use otl.Encoder.{
  Encoder, Frame, Sent, taken, Received, packet, Status, ok, drain, encode, encode_one,
  request_key_frame,
}

-- The calls of an encoder that is set up.
pub data Call (P : Type 0) : Type 0 where
  encodes : Option Frame → Sent → List (Received P) → Call P
  encodes_one : Option Frame → Sent → Received P → Call P
  requests : Call P

module _ {P : Type 0} where
  -- The packets that the encoder has ready.
  abbrev pub ready : List (Received P) → List P
  ready [] = []
  ready (packet p ∷ answers) = p ∷ ready answers
  ready (Received.again ∷ answers) = []
  ready (Received.eof ∷ answers) = []
  ready (Received.no_memory ∷ answers) = []
  ready (Received.failed n ∷ answers) = []

  -- Not every answer is a packet.
  abbrev pub IsFinite : List (Received P) → Type 0
  IsFinite [] = ⊥
  IsFinite (packet p ∷ answers) = IsFinite answers
  IsFinite (Received.again ∷ answers) = Unit
  IsFinite (Received.eof ∷ answers) = Unit
  IsFinite (Received.no_memory ∷ answers) = Unit
  IsFinite (Received.failed n ∷ answers) = Unit

  abbrev pub verdict : List (Received P) → Status
  verdict [] = ok
  verdict (packet p ∷ answers) = verdict answers
  verdict (Received.again ∷ answers) = ok
  verdict (Received.eof ∷ answers) = ok
  verdict (Received.no_memory ∷ answers) = Status.no_memory
  verdict (Received.failed n ∷ answers) = Status.failed n

module _ {C : Type 0} where
  abbrev pub counted : Encoder C → ℕ → Encoder C
  counted e n = record e { frame_count = e.frame_count + n }

  counted_plus : (e : Encoder C) (m n : ℕ) → counted (counted e m) n ≡ counted e (m + n)
  counted_plus e m n = ap (λ k. record e { frame_count = k }) (omega arith)

  pub counted_none : (e : Encoder C) → e ≡ counted e 0
  counted_none e = ap (λ k. record e { frame_count = k }) (omega arith)

module _ {C P : Type 0} where
  abbrev pub gives : Encoder C → List P → Status → Option (Encoder C × List P × Status)
  gives e out s = some (e, out, s)

  pub stops :
      (e : Encoder C) (out : List P) (s : Status)
      → gives e out s ≡ gives (counted e 0) (out ++ []) s
  stops e out s =
      ap (λ e. gives e out s) (counted_none e)
      ∙ ap (λ l. gives (counted e 0) l s) (sym (append-nil out))

  pub drain_lem :
      (e : Encoder C) (answers : List (Received P)) (out : List P)
      → IsFinite answers
      → drain e answers out
        ≡ gives (counted e (length (ready answers))) (out ++ ready answers) (verdict answers)
  unfolding drain
  drain_lem e [] out f = absurd f
  drain_lem e (packet p ∷ answers) out f =
      drain_lem (counted e 1) answers (out ++ (p ∷ [])) f
      ∙ ap₂ (λ e l. gives e l (verdict answers))
          (counted_plus e 1 (length (ready answers)) ∙ ap (counted e) (omega arith))
          (append_assoc out (p ∷ []) (ready answers))
  drain_lem e (Received.again ∷ answers) out f = stops e out ok
  drain_lem e (Received.eof ∷ answers) out f = stops e out ok
  drain_lem e (Received.no_memory ∷ answers) out f = stops e out Status.no_memory
  drain_lem e (Received.failed n ∷ answers) out f = stops e out (Status.failed n)

  -- One call, which adds its packets to those handed out.
  abbrev pub kept : List P → Option (Encoder C × List P × Status) → Option (Encoder C × List P)
  kept out none = none
  kept out (some (e, more, s)) = some (e, out ++ more)

  abbrev pub call : Encoder C → List P → Call P → Option (Encoder C × List P)
  call e out (encodes frame s answers) = kept out (encode e frame s answers)
  call e out (encodes_one frame s r) = kept out (some (encode_one e frame true s r))
  call e out requests = some (request_key_frame e, out)

  abbrev pub calls_on : Option (Encoder C × List P) → List (Call P) → Option (Encoder C × List P)
  calls_on o [] = o
  calls_on none (c ∷ cs) = none
  calls_on (some (e, out)) (c ∷ cs) = calls_on (call e out c) cs

module _ {P : Type 0} where
  -- The packets that FFmpeg gives out in a call.
  abbrev pub ready_after : Sent → List (Received P) → List P
  ready_after taken answers = ready answers
  ready_after Sent.again answers = ready answers
  ready_after Sent.eof answers = ready answers
  ready_after (Sent.failed n) answers = []

  abbrev pub ready_in : Call P → List P
  ready_in (encodes frame s answers) = ready_after s answers
  ready_in (encodes_one frame s r) = ready_after s (r ∷ [])
  ready_in requests = []

  abbrev pub ready_in_all : List (Call P) → List P
  ready_in_all [] = []
  ready_in_all (c ∷ cs) = ready_in c ++ ready_in_all cs

  -- FFmpeg does not give out packets without end.
  abbrev pub IsAnswered : Call P → Type 0
  IsAnswered (encodes frame s answers) = IsFinite answers
  IsAnswered (encodes_one frame s r) = Unit
  IsAnswered requests = Unit
