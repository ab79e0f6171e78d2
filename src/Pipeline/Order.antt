-- ===== src/Pipeline/Order.antt =====
-- otl_pipeline.h: with one thread to a pool the frames stay in order.
use mathlib.Core.List.{map-append}
use otl.Common.{ℕ, ◌≡◌, refl, sym, ap, ◌∙◌, List, [], ◌∷◌, ◌++◌, append_assoc, map, length}
use otl.ThreadQueue
use otl.ThreadQueue.{BlockingQueue, Pushed, stored, create, stop, items, wait_and_push_one}
use otl.ThreadQueue.Bound.{push-Grown}
use otl.Pipeline
use otl.Pipeline.{
  Thread, at_pop, pushing, WorkerPool, Delegate, DetectorParam, InferencePipe, Event, frame,
  pre_pops, pre_pushes, fwd_pops, fwd_pushes, post_pops, flushes, start_work, init_pool, init,
  push_frame, flush_frame, frame_pushed, thread_pop, thread_push, with_batch, after_pop, finish,
  step, run,
}
use otl.Pipeline.Counts.{
  held, Pops, thread_pop_lem, thread_push_lem, OnSome, map_some-OnSome, OnSome-both,
}
use otl.Pipeline.Single.{IsSingle, line, line-after_pop, line-thread_push}
use otl.Pipeline.Open.{IsRunning, ordered_of, step-IsRunning, init-IsRunning, run_ind}

module _ {ℓ} {A : Type ℓ} where
  -- All that was pushed: what is finished first, then the pools from the last on.
  abbrev pub contents : InferencePipe A → List A
  contents p = p.finished ++ (line p.post ++ (line p.fwd ++ line p.pre))

  module _ {κ} {K : Type κ} (key : A → K) where
    -- The delegate keeps the order of a batch, each element known by its key.
    pub record IsFollowing (d : Delegate A) : Type (ℓ ⊔ κ) where
      pub preprocess : (xs : List A) → map key (d.preprocess xs) ≡ map key xs
      pub forward : (xs : List A) → map key (d.forward xs) ≡ map key xs
      pub postprocess : (xs : List A) → map key (d.postprocess xs) ≡ map key xs

    -- The frames that are finished, and behind them those in the pipe, are the frames that were pushed.
    pub record InOrder (p : InferencePipe A) : Type κ where
      pub whole : map key p.pushed ≡ map key (contents p)
      pub pre_single : IsSingle p.pre
      pub fwd_single : IsSingle p.fwd
      pub post_single : IsSingle p.post

    map_right : (a b c : List A) → map key b ≡ map key c → map key (a ++ b) ≡ map key (a ++ c)
    map_right a b c e = map-append key a b ∙ ap (λ l. map key a ++ l) e ∙ sym (map-append key a c)

    map_left : (a b c : List A) → map key a ≡ map key b → map key (a ++ c) ≡ map key (b ++ c)
    map_left a b c e = map-append key a c ∙ ap (λ l. l ++ map key c) e ∙ sym (map-append key b c)

    map_nil : (xs : List A) → map key xs ≡ [] → xs ≡ []
    map_nil [] e = refl
    map_nil (x ∷ xs) e = absurd (cc e)

    map-after_pop :
        (g : List A → List A) (w : WorkerPool A) (k : ℕ) (q : BlockingQueue A) (out : List A)
        → IsSingle w
        → Pops w k q out
        → ((xs : List A) → map key (g xs) ≡ map key xs)
        → (map key (line (after_pop g w k (q, out))) ≡ map key (line w))
          × IsSingle (after_pop g w k (q, out))
    map-after_pop g w k q out s p same =
        let (before, after, single) = line-after_pop g w k q out s p (map_nil (g []) (same [])) in
        (
          ap (map key) after
              ∙ map_left (g out) out (items q) (same out)
              ∙ sym (ap (map key) before),
          single,
        )

    frame_pushed-InOrder :
        (param : DetectorParam) (p : InferencePipe A) (x : A) (s : Pushed A)
        → wait_and_push_one p.pre.work_que x ≡ s
        → IsRunning param p
        → InOrder p
        → OnSome InOrder (frame_pushed p x s)
    frame_pushed-InOrder param p x ThreadQueue.Pushed.waits e r h = tt
    frame_pushed-InOrder param p x (stored q lost) e r h = record {
      whole =
          map_left p.pushed (contents p) (x ∷ []) h.whole
          ∙ ap (map key) (behind p.finished (line p.post) (line p.fwd) (held p.pre.threads) _)
          ∙ ap
              (λ l.
                map key (p.finished ++ (line p.post ++ (line p.fwd ++ (held p.pre.threads ++ l)))))
              (sym (ordered_of (push-Grown p.pre.work_que x q lost e) r.pre.drops_same));
      pre_single = h.pre_single;
      fwd_single = h.fwd_single;
      post_single = h.post_single;
    }
      where
        behind :
            (a b c d e : List A)
            → (a ++ (b ++ (c ++ (d ++ e)))) ++ (x ∷ []) ≡ a ++ (b ++ (c ++ (d ++ (e ++ (x ∷ [])))))
        behind a b c d e = simp append_assoc

    finish-InOrder :
        (d : Delegate A) (p : InferencePipe A) (k : ℕ) (q : BlockingQueue A) (out : List A)
        → IsFollowing d
        → Pops p.post k q out
        → InOrder p
        → InOrder (finish d p k (q, out))
    finish-InOrder d p k q [] keeps o h =
        let (before, after, single) = line-after_pop (λ b. []) p.post k q [] h.post_single o refl in
        record {
          whole =
              h.whole
              ∙ ap (λ l. map key (p.finished ++ (l ++ (line p.fwd ++ line p.pre))))
                  (before ∙ sym after);
          pre_single = h.pre_single;
          fwd_single = h.fwd_single;
          post_single = single;
        }
    finish-InOrder d p k q (x ∷ xs) keeps o h =
        let (before, after, single) =
          line-after_pop (λ b. []) p.post k q (x ∷ xs) h.post_single o refl in
        record {
          whole =
              h.whole
              ∙ ap (λ l. map key (p.finished ++ (l ++ (line p.fwd ++ line p.pre)))) before
              ∙ done p.finished (x ∷ xs) (d.postprocess (x ∷ xs)) (items q)
                  (line p.fwd ++ line p.pre) (keeps.postprocess (x ∷ xs))
              ∙ ap
                  (λ l.
                    map key
                      ((p.finished ++ d.postprocess (x ∷ xs)) ++ (l ++ (line p.fwd ++ line p.pre))))
                  (sym after);
          pre_single = h.pre_single;
          fwd_single = h.fwd_single;
          post_single = single;
        }
      where
        done :
            (f out out' i l : List A)
            → map key out' ≡ map key out
            → map key (f ++ ((out ++ i) ++ l)) ≡ map key ((f ++ out') ++ (i ++ l))
        done f out out' i l e =
            map_right f ((out ++ i) ++ l) (out' ++ (i ++ l))
              (ap (map key) (append_assoc out i l) ∙ map_left out out' (i ++ l) (sym e))
            ∙ ap (map key) (sym (append_assoc f out' (i ++ l)))

    step-InOrder :
        (param : DetectorParam) (d : Delegate A) (p : InferencePipe A) (e : Event A)
        → IsFollowing d
        → IsRunning param p
        → InOrder p
        → OnSome InOrder (step d p e)
    unfolding step push_frame flush_frame Pipeline.flush stop
    step-InOrder param d p (frame x) keeps r h =
        frame_pushed-InOrder param p x (wait_and_push_one p.pre.work_que x) refl r h
    step-InOrder param d p (pre_pops k) keeps r h =
        map_some-OnSome InOrder _ (thread_pop p.pre k) λ u e.
          let (same, single) =
            map-after_pop d.preprocess p.pre k u.0 u.1 h.pre_single
              (thread_pop_lem p.pre k u.0 u.1 e) keeps.preprocess in
          record {
            whole =
                h.whole
                ∙ map_right p.finished _ _ (
                    map_right (line p.post) _ _ (
                      map_right (line p.fwd) (line p.pre) (line (after_pop d.preprocess p.pre k u))
                        (sym same)));
            pre_single = single;
            fwd_single = h.fwd_single;
            post_single = h.post_single;
          }
    step-InOrder param d p (pre_pushes k) keeps r h =
        map_some-OnSome InOrder _ (thread_push p.pre p.fwd k) λ u e.
          let (same, single, kept) =
            line-thread_push p.pre p.fwd k u h.pre_single (thread_push_lem p.pre p.fwd k u e)
              r.fwd.opened.drops_same r.fwd.runs in
          record {
            whole = h.whole ∙ ap (λ l. map key (p.finished ++ (line p.post ++ l))) (sym same);
            pre_single = single;
            fwd_single = ap length kept ∙ h.fwd_single;
            post_single = h.post_single;
          }
    step-InOrder param d p (fwd_pops k) keeps r h =
        map_some-OnSome InOrder _ (thread_pop p.fwd k) λ u e.
          let (same, single) =
            map-after_pop d.forward p.fwd k u.0 u.1 h.fwd_single (thread_pop_lem p.fwd k u.0 u.1 e)
              keeps.forward in
          record {
            whole =
                h.whole
                ∙ map_right p.finished _ _ (
                    map_right (line p.post) _ _ (
                      map_left (line p.fwd) (line (after_pop d.forward p.fwd k u)) (line p.pre)
                        (sym same)));
            pre_single = h.pre_single;
            fwd_single = single;
            post_single = h.post_single;
          }
    step-InOrder param d p (fwd_pushes k) keeps r h =
        map_some-OnSome InOrder _ (thread_push p.fwd p.post k) λ u e.
          let (same, single, kept) =
            line-thread_push p.fwd p.post k u h.fwd_single (thread_push_lem p.fwd p.post k u e)
              r.post.opened.drops_same r.post.runs in
          record {
            whole =
                h.whole
                ∙ ap (λ l. map key (p.finished ++ l))
                    (sym (append_assoc (line p.post) (line p.fwd) (line p.pre))
                      ∙ ap (λ l. l ++ line p.pre) (sym same)
                      ∙ append_assoc (line u.1) (line u.0) (line p.pre));
            pre_single = h.pre_single;
            fwd_single = single;
            post_single = ap length kept ∙ h.post_single;
          }
    step-InOrder param d p (post_pops k) keeps r h =
        map_some-OnSome InOrder (finish d p k) (thread_pop p.post k)
          λ u e. finish-InOrder d p k u.0 u.1 keeps (thread_pop_lem p.post k u.0 u.1 e) h
    step-InOrder param d p flushes keeps r h = record {
      whole = h.whole;
      pre_single = h.pre_single;
      fwd_single = h.fwd_single;
      post_single = h.post_single;
    }

    init-InOrder :
        (param : DetectorParam)
        → param.preprocess_thread_num ≡ 1
        → param.inference_thread_num ≡ 1
        → param.postprocess_thread_num ≡ 1
        → InOrder (init param)
    unfolding init start_work init_pool create
    init-InOrder param a b c = record {
      whole = rw (a, b, c) refl;
      pre_single = rw a refl;
      fwd_single = rw b refl;
      post_single = rw c refl;
    }

  -- Let each call of the delegate keep the keys of a batch in their order, and let each pool have one
  -- thread. Then after any schedule the frames that are finished, followed by those in the last pool,
  -- in the second and in the first, in each pool the thread's batch before its queue, are by their
  -- keys the frames that were pushed, in the order in which they were pushed.
  pub run-init-InOrder {κ} :
      {K : Type κ} (key : A → K) (d : Delegate A) (param : DetectorParam) (es : List (Event A))
      → IsFollowing key d
      → param.preprocess_thread_num ≡ 1
      → param.inference_thread_num ≡ 1
      → param.postprocess_thread_num ≡ 1
      → map key (run d (init param) es).pushed ≡ map key (contents (run d (init param) es))
  run-init-InOrder key d param es keeps a b c =
      (run_ind (λ p. IsRunning param p × InOrder key p) d
        (λ p e h.
          OnSome-both _ _ (step d p e) (step-IsRunning param d p e h.0)
            (step-InOrder key param d p e keeps h.0 h.1))
        es (init param) (init-IsRunning param, init-InOrder key param a b c)).1.whole
