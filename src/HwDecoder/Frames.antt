-- ===== src/HwDecoder/Frames.antt =====
-- stream_decode_hw.cpp: the frames that one packet gives.
use otl.Common.{
  ℕ, ◌+◌, ◌≡◌, ap, ◌∙◌, arith, true, List, [], ◌∷◌, ◌++◌, Option, none, some, length, length-append,
}
use otl.HwDecoder.{
  Sent, taken, Received, frame, Decoded, pictures, make_room, receive_frames, retry, decode_frame,
}

abbrev pub IsAccepted : Sent → Type 0
IsAccepted taken = Unit
IsAccepted Sent.again = Unit
IsAccepted (Sent.failed n) = ⊥

module _ {P : Type 0} where
  -- The frames in front of the first other answer, and that answer.
  abbrev pub frames : List (Received P) → List P
  frames [] = []
  frames (frame f ∷ answers) = f ∷ frames answers
  frames (Received.again ∷ answers) = []
  frames (Received.eof ∷ answers) = []
  frames (Received.failed n ∷ answers) = []

  -- The decoder needs more or is at its end behind its frames.
  abbrev pub IsDrained : List (Received P) → Type 0
  IsDrained [] = ⊥
  IsDrained (frame f ∷ answers) = IsDrained answers
  IsDrained (Received.again ∷ answers) = Unit
  IsDrained (Received.eof ∷ answers) = Unit
  IsDrained (Received.failed n ∷ answers) = ⊥

  abbrev pub last_or : Option P → List P → Option P
  last_or picture [] = picture
  last_or picture (f ∷ fs) = last_or (some f) fs

  abbrev received : ℕ → Option P → Option (Decoded × Option P)
  received n picture = some (pictures n, picture)

  receive_frames_lem :
      (answers : List (Received P)) (got : ℕ) (picture : Option P)
      → IsDrained answers
      → receive_frames answers got picture
        ≡ received (got + length (frames answers)) (last_or picture (frames answers))
  unfolding receive_frames
  receive_frames_lem [] got picture h = absurd h
  receive_frames_lem (frame f ∷ answers) got picture h =
      receive_frames_lem answers (got + 1) (some f) h
      ∙ ap (λ n. received n (last_or (some f) (frames answers))) (omega arith)
  receive_frames_lem (Received.again ∷ answers) got picture h =
      ap (λ n. received n picture) (omega arith)
  receive_frames_lem (Received.eof ∷ answers) got picture h =
      ap (λ n. received n picture) (omega arith)
  receive_frames_lem (Received.failed n ∷ answers) got picture h = absurd h

  make_room_lem :
      (answers : List (Received P)) (got : ℕ)
      → IsDrained answers
      → make_room answers got ≡ some (got + length (frames answers))
  unfolding make_room
  make_room_lem [] got h = absurd h
  make_room_lem (frame f ∷ answers) got h =
      make_room_lem answers (got + 1) h ∙ ap some (omega arith)
  make_room_lem (Received.again ∷ answers) got h = ap some (omega arith)
  make_room_lem (Received.eof ∷ answers) got h = ap some (omega arith)
  make_room_lem (Received.failed n ∷ answers) got h = absurd h

  -- The frames that a packet brings out: with a full decoder, those that make room too.
  abbrev pub brought : Sent → List (Received P) → List (Received P) → List P
  brought taken room answers = frames answers
  brought Sent.again room answers = frames room ++ frames answers
  brought (Sent.failed n) room answers = []

  -- Let the decoder take the packet, at once or when it has been emptied, and let no other error come.
  -- Then `decodeFrame` returns the number of all the frames that come out, but the caller's frame
  -- holds only the last of those that come out behind the packet, and nothing if there are none: the
  -- frames that made room are counted and lost.
  pub decode_frame_lem :
      (first : Sent) (room answers : List (Received P))
      → IsAccepted first
      → IsDrained room
      → IsDrained answers
      → decode_frame first room taken true answers
        ≡ some (pictures (length (brought first room answers)), last_or none (frames answers))
  unfolding decode_frame
  decode_frame_lem taken room answers a r h =
      receive_frames_lem answers 0 none h
      ∙ ap (λ n. received n (last_or none (frames answers))) (omega arith)
  decode_frame_lem Sent.again room answers a r h =
      ap (retry taken true answers) (make_room_lem room 0 r)
      ∙ receive_frames_lem answers (0 + length (frames room)) none h
      ∙ ap (λ n. received n (last_or none (frames answers)))
          (omega (arith, length-append (frames room) (frames answers)))
  decode_frame_lem (Sent.failed n) room answers a r h = absurd a
