-- ===== src/Pipeline/Tests.antt =====
-- Runs of the pipe on frames of an identifier and a tally of the calls that they went through.
use otl.Common.{
  ℕ, ◌+◌, ◌≤◌, ◌<◌, ◌≡◌, refl, ap, arith, Bool, false, ◌==◌, some, List, [], ◌∷◌, map, length,
}
use otl.ThreadQueue.{create, stop, items, wait_and_push_one, pop_front, move_out}
use otl.Pipeline.{
  Delegate, DetectorParam, default_param, InferencePipe, Event, frame, pre_pops, pre_pushes,
  fwd_pops, fwd_pushes, post_pops, flushes, start_work, init_pool, init, push_frame, flush_frame,
  flush, thread_pop, thread_push, step, run,
}
use otl.Pipeline.Counts.{tally}
use otl.Pipeline.Open.{IsRunning}
use otl.Pipeline.Flow.{IsKeeping, IsWhole, run-init-IsWhole}
use otl.Pipeline.Order.{IsFollowing, contents, run-init-InOrder}
use otl.Pipeline.Measure.{every, measure}
use otl.Pipeline.Settles.{Settles, measure-step, settles}
use otl.Pipeline.Starved.{starved}

abbrev mark : List (ℕ × ℕ) → List (ℕ × ℕ)
mark [] = []
mark (f ∷ fs) = (f.0, f.1 + 1) ∷ mark fs

abbrev marker : Delegate (ℕ × ℕ)
marker = record { preprocess = mark; forward = mark; postprocess = mark }

abbrev is_seven : ℕ × ℕ → Bool
is_seven f = f.0 == 7

tally-mark : (fs : List (ℕ × ℕ)) → tally is_seven (mark fs) ≡ tally is_seven fs
tally-mark [] = refl
tally-mark (f ∷ fs) = omega (arith, tally-mark fs)

tally-every-mark : (fs : List (ℕ × ℕ)) → tally every (mark fs) ≡ tally every fs
tally-every-mark [] = refl
tally-every-mark (f ∷ fs) = omega (arith, tally-every-mark fs)

map-mark : (fs : List (ℕ × ℕ)) → map (λ f. f.0) (mark fs) ≡ map (λ f. f.0) fs
map-mark [] = refl
map-mark (f ∷ fs) = ap (λ l. f.0 ∷ l) (map-mark fs)

marker-IsKeeping : IsKeeping is_seven marker
marker-IsKeeping = record {
  preprocess = tally-mark;
  forward = tally-mark;
  postprocess = tally-mark;
}

marker-IsKeeping-every : IsKeeping every marker
marker-IsKeeping-every = record {
  preprocess = tally-every-mark;
  forward = tally-every-mark;
  postprocess = tally-every-mark;
}

marker-IsFollowing : IsFollowing (λ f. f.0) marker
marker-IsFollowing = record { preprocess = map-mark; forward = map-mark; postprocess = map-mark }

abbrev one_each : DetectorParam
one_each = record default_param { preprocess_thread_num = 1; postprocess_thread_num = 1 }

abbrev large_batch : DetectorParam
large_batch = record default_param { preprocess_queue_size = 2; batch_num = 3 }

abbrev two_frames : List (Event (ℕ × ℕ))
two_frames = frame (7, 0) ∷ frame (8, 0) ∷ pre_pops 0 ∷ []

-- One frame goes through the whole pipe.
abbrev through : List (Event (ℕ × ℕ))
through =
    frame (7, 0)
    ∷ frame (8, 0)
    ∷ pre_pops 0
    ∷ pre_pushes 0
    ∷ fwd_pops 0
    ∷ fwd_pushes 0
    ∷ post_pops 0
    ∷ []

through_finished : (run marker (init default_param) through).finished ≡ (7, 3) ∷ []
unfolding run step push_frame init start_work init_pool create thread_pop thread_push
    wait_and_push_one pop_front move_out
through_finished = refl

-- Frames that are pushed when the flushed pool's threads have ended stay in the queue.
late_frame :
    items
      (run marker
        (init one_each)
        (flushes ∷ pre_pops 0 ∷ frame (7, 0) ∷ pre_pops 0 ∷ [])).pre.work_que
    ≡ (7, 0) ∷ []
unfolding run step push_frame flush_frame flush init start_work init_pool create thread_pop
    thread_push wait_and_push_one pop_front move_out stop
late_frame = refl

run-init-IsWhole_example :
    IsRunning default_param (run marker (init default_param) through)
    × IsWhole is_seven (run marker (init default_param) through)
run-init-IsWhole_example = run-init-IsWhole is_seven marker default_param through marker-IsKeeping

run-init-InOrder_example :
    map (λ f. f.0) (run marker (init one_each) two_frames).pushed
    ≡ map (λ f. f.0) (contents (run marker (init one_each) two_frames))
run-init-InOrder_example =
    run-init-InOrder (λ f. f.0) marker one_each two_frames marker-IsFollowing refl refl refl

abbrev before_pop : InferencePipe (ℕ × ℕ)
before_pop = run marker (init default_param) (frame (7, 0) ∷ [])

abbrev after : InferencePipe (ℕ × ℕ)
after = run marker (init default_param) (frame (7, 0) ∷ pre_pops 0 ∷ [])

before_steps : step marker before_pop (pre_pops 0) ≡ some after
unfolding run step push_frame init start_work init_pool create thread_pop thread_push
    wait_and_push_one pop_front move_out
before_steps = refl

measure-step_example : measure after < measure before_pop
measure-step_example =
    measure-step marker default_param (frame (7, 0) ∷ []) (pre_pops 0) after marker-IsKeeping-every
      tt before_steps

two_frames_keep : (run marker (init default_param) two_frames).pre.work_que.stop ≡ false
unfolding run step push_frame init start_work init_pool create thread_pop thread_push
    wait_and_push_one pop_front move_out
two_frames_keep = refl

settles_example : Settles 1 marker (run marker (init default_param) two_frames)
settles_example =
    settles marker default_param two_frames marker-IsKeeping-every (omega arith) (omega arith)
      (omega arith) (omega arith) two_frames_keep

starved_example :
    ((run marker (init large_batch) two_frames).finished ≡ [])
    × (length (run marker (init large_batch) two_frames).pushed ≤ 2)
starved_example =
    starved large_batch marker two_frames (omega arith) (omega arith) (tt, (tt, (tt, tt)))
