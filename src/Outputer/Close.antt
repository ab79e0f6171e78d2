-- ===== src/Outputer/Close.antt =====
-- stream_pusher.h: `closeOutputStream` ends the output thread.
use otl.Common.{◌≡◌, ◌⊎◌, inl, inr, refl, ap, ◌∙◌, Bool, true, false, List, [], ◌∷◌, ◌++◌, length}
use otl.InternalQueue
use otl.InternalQueue.{InternalQueue, Popped, waits, refused, popped}
use otl.Smoother.{Blend}
use otl.Outputer.{
  trailer, Place, starting, switching, exited, Outputer, Answers, emit, output_down, thread_step,
  close_repeat, close_state, close_queue, drain,
}

-- All the packets are taken out.
drain_lem :
    {A : Type 0} (xs : List A) (b : Bool)
    → (drain (length xs) (record { queue = xs; is_shutdown = b })).queue ≡ []
unfolding drain InternalQueue.pop
drain_lem [] b = refl
drain_lem (x ∷ xs) b = drain_lem xs b

module _ {F : Type 0} where
  -- What `closeOutputStream` writes before it joins the thread.
  pub close_output_stream : Outputer F → Outputer F
  close_output_stream o = close_queue (close_state (close_repeat o))

  abbrev closing : Outputer F → Place → Bool → Outputer F
  closing o p b = record (close_output_stream o) { place = p; is_running = b }

  abbrev ended : Outputer F → Outputer F
  ended o = record (emit (close_output_stream o) trailer) {
    packet_queue = InternalQueue.shutdown (
        drain (InternalQueue.size (close_output_stream o).packet_queue)
          (close_output_stream o).packet_queue);
    is_running = false;
    place = exited;
  }

  -- The thread was started, and is in its loop.
  abbrev pub IsAtWork : Outputer F → Type 0
  IsAtWork o = (o.place ≡ starting) ⊎ ((o.place ≡ switching) × (o.is_running ≡ true))

module _ {F : Type 0} (f : Blend F) where
  pub thread_steps : Outputer F → List Answers → Outputer F
  thread_steps o [] = o
  thread_steps o (a ∷ rest) = thread_steps (thread_step f o a) rest

  ended_stays : (o : Outputer F) (rest : List Answers) → thread_steps (ended o) rest ≡ ended o
  unfolding thread_steps thread_step
  ended_stays o [] = refl
  ended_stays o (a ∷ rest) = ended_stays o rest

  from_switch :
      (o : Outputer F) (a b : Answers) (rest : List Answers)
      → thread_steps (closing o switching true) (a ∷ b ∷ rest) ≡ ended o
  unfolding thread_steps thread_step output_down close_output_stream close_queue close_state
      close_repeat
  from_switch o a b rest = ended_stays o rest

  reaches_end :
      (o : Outputer F) (a b c : Answers) (rest : List Answers)
      → IsAtWork o
      → thread_steps (close_output_stream o) (a ∷ b ∷ c ∷ rest) ≡ ended o
  unfolding thread_steps thread_step close_output_stream close_queue close_state close_repeat
  reaches_end o a b c rest (inl e) =
      ap (λ p. thread_steps (closing o p o.is_running) (a ∷ b ∷ c ∷ rest)) e
      ∙ from_switch o b c rest
  reaches_end o a b c rest (inr (e, r)) =
      ap (λ p. thread_steps (closing o p o.is_running) (a ∷ b ∷ c ∷ rest)) e
      ∙ ap (λ t. thread_steps (closing o switching t) (a ∷ b ∷ c ∷ rest)) r
      ∙ from_switch o a b (c ∷ rest)

  -- When `closeOutputStream` has made its writes while the thread had been started and had not ended,
  -- three steps end the thread, whatever FFmpeg answers, so that the join returns. All the packets
  -- are taken out of the queue, and the last thing that is written is one trailer.
  pub close_output_stream_exits :
      (o : Outputer F) (a b c : Answers) (rest : List Answers)
      → IsAtWork o
      → ((thread_steps (close_output_stream o) (a ∷ b ∷ c ∷ rest)).place ≡ exited)
        × ((thread_steps (close_output_stream o) (a ∷ b ∷ c ∷ rest)).packet_queue.queue ≡ [])
        × ((thread_steps (close_output_stream o) (a ∷ b ∷ c ∷ rest)).events
            ≡ o.events ++ (trailer ∷ []))
  unfolding InternalQueue.shutdown InternalQueue.size close_output_stream close_queue close_state
      close_repeat
  close_output_stream_exits o a b c rest w =
      let e = reaches_end o a b c rest w in
      (ap (λ t. t.place) e, ap (λ t. t.packet_queue.queue) e ∙ emptied, ap (λ t. t.events) e ∙ same)
    where
      emptied : (ended o).packet_queue.queue ≡ []
      emptied = drain_lem o.packet_queue.queue true

      same : (close_output_stream o).events ++ (trailer ∷ []) ≡ o.events ++ (trailer ∷ [])
      same = refl
