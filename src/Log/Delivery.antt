-- ===== src/Log/Delivery.antt =====
-- otl_log.cpp: what happens to the messages. Any number of threads log, one worker takes messages
-- off the queue, and the configuration may change at any time.
use mathlib.Core.List.{Perm, perm_middle, perm_comm, perm_append_singleton}
use mathlib.Core.List.Perm
use otl.Common.{
  ◌≡◌, inl, inr, refl, sym, ap, subst, ◌∙◌, Bool, Bool-cases, true, false, List, [], ◌∷◌, ◌++◌,
  append-nil, append_assoc, Option, none, some, if◌then◌else◌, leb, length,
}
use otl.Log.{
  LogConfig, LogMessage, LogQueue, Logger, push, Popped, waits, refused, popped, pop_from, pop,
  passes, add, shows, write, deliver, write_all, enqueue, push_to, log_printf, work, pop_of,
  work_round, flush, stop_queue, deinit, init, update_config,
}

-- The logger, and the messages that its level let through, in the order of the calls.
pub record System : Type 0 where
  pub log : Logger
  pub accepted : List LogMessage

pub data Step (s : System) : System → Type 0 where
  logs :
      (m : LogMessage)
      → s.log.aborted ≡ false
      → Step s (record {
        log = log_printf s.log m;
        accepted = if passes s.log.config m then s.accepted ++ (m ∷ []) else s.accepted;
      })
  works :
      (g : Logger)
      → s.log.aborted ≡ false
      → work_round s.log ≡ some g
      → Step s (record s { log = g })
  configures : (c : LogConfig) → shows c ≡ true → Step s (record s { log = update_config s.log c })

pub data Reach (s : System) : System → Type 0 where
  here : Reach s s
  next : {t u : System} → Reach s t → Step t u → Reach s u

abbrev queued : Option LogQueue → List LogMessage
queued none = []
queued (some q) = q.messages

record Inv (s : System) : Type 0 where
  runs : s.log.running ≡ true
  shown : shows s.log.config ≡ true
  kept : Perm (s.log.written.console ++ queued s.log.queue) s.accepted

-- A message at the end of the first part of a list.
perm_insert :
    (w q acc : List LogMessage) (m : LogMessage)
    → Perm (w ++ q) acc
    → Perm ((w ++ (m ∷ [])) ++ q) (acc ++ (m ∷ []))
perm_insert w q acc m h =
    subst (λ l. Perm l (acc ++ (m ∷ []))) (sym (append_assoc w (m ∷ []) q))
      (Perm.trans (perm_middle w q)
        (Perm.trans (Perm.cons m h) (perm_comm.0 (perm_append_singleton m acc))))

push_to-queued :
    (o : Option LogQueue) (m : LogMessage) (q : LogQueue)
    → push_to o m ≡ some q
    → q.messages ≡ queued o ++ (m ∷ [])
unfolding push
push_to-queued none m q h = absurd (cc h)
push_to-queued (some p) m q h = elim (Bool-cases (leb p.max_size (length p.messages))) [
  | inl e ↦ absurd (cc (sym (ap branch e) ∙ h))
  | inr e ↦ ap queued (sym h ∙ ap branch e)
]
  where
    branch : Bool → Option LogQueue
    branch b = if b then none else some (record p { messages = p.messages ++ (m ∷ []) })

enqueue-kept :
    (g : Logger) (m : LogMessage) (acc : List LogMessage) (o : Option LogQueue)
    → shows g.config ≡ true
    → push_to g.queue m ≡ o
    → Perm (g.written.console ++ queued g.queue) acc
    → Perm ((enqueue g m o).written.console ++ queued (enqueue g m o).queue) (acc ++ (m ∷ []))
unfolding deliver write
enqueue-kept g m acc none w e h =
    subst (λ b. Perm (add b m g.written.console ++ queued g.queue) (acc ++ (m ∷ []))) (sym w)
      (perm_insert g.written.console (queued g.queue) acc m h)
enqueue-kept g m acc (some q) w e h =
    subst (λ l. Perm (g.written.console ++ l) (acc ++ (m ∷ [])))
      (sym (push_to-queued g.queue m q e))
      (subst (λ l. Perm l (acc ++ (m ∷ [])))
        (append_assoc g.written.console (queued g.queue) (m ∷ []))
        (Perm.trans (perm_append_singleton m (g.written.console ++ queued g.queue))
          (Perm.trans (Perm.cons m h) (perm_comm.0 (perm_append_singleton m acc)))))

enqueue-running :
    (g : Logger) (m : LogMessage) (o : Option LogQueue) → (enqueue g m o).running ≡ g.running
unfolding deliver write
enqueue-running g m none = refl
enqueue-running g m (some q) = refl

enqueue-shown :
    (g : Logger) (m : LogMessage) (o : Option LogQueue)
    → shows g.config ≡ true
    → shows (enqueue g m o).config ≡ true
unfolding deliver write
enqueue-shown g m none w = w
enqueue-shown g m (some q) w = w

logs-Inv :
    (s : System) (m : LogMessage) (b : Bool)
    → Inv s
    → Inv (record {
      log = if b then enqueue s.log m (push_to s.log.queue m) else s.log;
      accepted = if b then s.accepted ++ (m ∷ []) else s.accepted;
    })
logs-Inv s m false v = record { runs = v.runs; shown = v.shown; kept = v.kept }
logs-Inv s m true v = record {
  runs = enqueue-running s.log m (push_to s.log.queue m) ∙ v.runs;
  shown = enqueue-shown s.log m (push_to s.log.queue m) v.shown;
  kept = enqueue-kept s.log m s.accepted (push_to s.log.queue m) v.shown refl v.kept;
}

-- The message that a pop gives was the first of the queue.
pop_of-queued :
    (o : Option LogQueue) (m : LogMessage) (q : LogQueue)
    → pop_of o ≡ popped m q
    → queued o ≡ m ∷ q.messages
unfolding pop_of pop
pop_of-queued none m q h = absurd (cc h)
pop_of-queued (some p) m q h = go p.messages h
  where
    go : (l : List LogMessage) → pop_from l p ≡ popped m q → l ≡ m ∷ q.messages
    go [] h = elim (Bool-cases p.stopped) [
      | inl e ↦ absurd (cc (sym (ap (λ b. if b then refused else waits) e) ∙ h))
      | inr e ↦ absurd (cc (sym (ap (λ b. if b then refused else waits) e) ∙ h))
    ]
    go (x ∷ xs) h = cc h

work-Inv :
    (s : System) (g : Logger) (p : Popped)
    → pop_of s.log.queue ≡ p
    → work s.log p ≡ some g
    → Inv s
    → Inv (record s { log = g })
unfolding deliver write
work-Inv s g waits e h v = absurd (cc h)
work-Inv s g refused e h v = absurd (cc h)
work-Inv s g (popped m q) e h v =
    subst (λ (r : Logger). Inv (record s { log = r })) (inner h)
      (record {
        runs = v.runs;
        shown = v.shown;
        kept =
            subst (λ l. Perm l s.accepted)
              (ap (λ l. s.log.written.console ++ l) (pop_of-queued s.log.queue m q e)
                ∙ sym (append_assoc s.log.written.console (m ∷ []) q.messages)
                ∙ ap (λ b. add b m s.log.written.console ++ q.messages) (sym v.shown))
              v.kept;
      })
  where
    inner :
        some (deliver true (record s.log { queue = some q }) m) ≡ some g
        → deliver true (record s.log { queue = some q }) m ≡ g
    inner h = cc h

Step-Inv : {s t : System} → Step s t → Inv s → Inv t
unfolding log_printf work_round update_config
Step-Inv {s} (logs m a) v = logs-Inv s m (passes s.log.config m) v
Step-Inv {s} (works g a h) v =
    work-Inv s g (pop_of s.log.queue) refl
      (sym (ap (λ b. if b then work s.log (pop_of s.log.queue) else none) v.runs) ∙ h) v
Step-Inv {s} (configures c w) v = record { runs = v.runs; shown = w; kept = v.kept }

Reach-Inv : {s t : System} → Inv s → Reach s t → Inv t
Reach-Inv v here = v
Reach-Inv v (next r st) = Step-Inv st (Reach-Inv v r)

-- After `init`, with nothing logged yet.
unfoldable pub started : Logger → LogConfig → System
started g c = record {
  log = record (init g c) {
    written = record { file = []; console = []; telnet = [] };
    aborted = false;
  };
  accepted = [];
}

started-Inv : (g : Logger) (c : LogConfig) → shows c ≡ true → Inv (started g c)
unfolding started init
started-Inv g c w = record { runs = refl; shown = w; kept = Perm.refl [] }

write_all-console :
    (g : Logger) (ms : List LogMessage)
    → shows g.config ≡ true
    → (write_all g ms).written.console ≡ g.written.console ++ ms
unfolding write_all write
write_all-console g [] w = sym (append-nil g.written.console)
write_all-console g (m ∷ ms) w =
    write_all-console (write true g m) ms w
    ∙ ap (λ b. add b m g.written.console ++ ms) w
    ∙ append_assoc g.written.console (m ∷ []) ms

deinit-written :
    (g : Logger)
    → g.running ≡ true
    → shows g.config ≡ true
    → (deinit g).written.console ≡ g.written.console ++ queued g.queue
unfolding deinit
deinit-written g e w = ap (λ b. (if b then closed else g).written.console) e ∙ go g.queue
  where
    closed : Logger
    closed = record (flush (record g { running = false }) (stop_queue g.queue)) {
      file_open = false;
      telnet_running = false;
    }

    go :
        (o : Option LogQueue)
        → (flush (record g { running = false }) (stop_queue o)).written.console
          ≡ g.written.console ++ queued o
    go none = sym (append-nil g.written.console)
    go (some q) = write_all-console (record g { running = false }) q.messages w

-- However threads log, the worker works and the configuration changes, as long as each configuration
-- has the console as an enabled target, also while the queue is full: after `deinit` the messages
-- that the level let through when they were logged have been written to the console exactly once
-- each, and no others.
pub deinit-Perm :
    (g : Logger) (c : LogConfig) (s : System)
    → shows c ≡ true
    → Reach (started g c) s
    → Perm (deinit s.log).written.console s.accepted
deinit-Perm g c s w r =
    let v = Reach-Inv (started-Inv g c w) r in
    subst (λ l. Perm l s.accepted) (sym (deinit-written s.log v.runs v.shown)) v.kept
