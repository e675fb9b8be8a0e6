-- ===== src/Engine/Publisher/Laws.antt =====
-- The publisher against the queue's contents.
use latentspeed.Prelude.{
  ◌≡◌, refl, ap₂, ◌∙◌, List, [], ◌∷◌, ◌++◌, Bool, ◌&&◌, length, drop, if_ind, ℕ, zero, suc, subst,
}
use latentspeed.Hft.SpscQueue.Refine.{Models, pop_refines}
use latentspeed.Hft.SpscQueue.Spec.{fifo_pop}
use latentspeed.Engine.Types.{Message, Env, Engine}
use latentspeed.Engine.Publisher.{Frame, send_frames, publisher_round, publisher_rounds}

-- The frames of the messages in their order, each with its own answers of the socket.
unfoldable pub frames_of : List (Bool × Bool) → List Message → List Frame
frames_of [] xs = []
frames_of (ok ∷ oks) [] = []
frames_of (ok ∷ oks) (x ∷ xs) = send_frames ok x ++ frames_of oks xs

frames_of-nil : (oks : List (Bool × Bool)) → frames_of oks [] ≡ []
unfolding frames_of
frames_of-nil [] = refl
frames_of-nil (ok ∷ oks) = refl

drop-nil : (n : ℕ) → drop {A = Message} n [] ≡ []
drop-nil zero = refl
drop-nil (suc n) = refl

round_empty :
    (env : Env) (ok : Bool × Bool) (e : Engine)
    → Models env.bounds.queue_slots e.publish_queue []
    → publisher_round env ok e ≡ (e, [])
unfolding publisher_round fifo_pop
round_empty env ok e m =
    let (next, out) = pop_refines env.bounds.queue_slots e.publish_queue [] m in
    rw (publisher_round, out) refl

round_some :
    (env : Env) (ok : Bool × Bool) (x : Message) (xs : List Message) (e : Engine)
    → Models env.bounds.queue_slots e.publish_queue (x ∷ xs)
    → Models env.bounds.queue_slots (publisher_round env ok e).0.publish_queue xs
      × ((publisher_round env ok e).1 ≡ send_frames ok x)
unfolding publisher_round fifo_pop
round_some env ok x xs e m =
    let (next, out) = pop_refines env.bounds.queue_slots e.publish_queue (x ∷ xs) m in
    rw (publisher_round, out)
      (
        if_ind (λ (s : Engine). Models env.bounds.queue_slots s.publish_queue xs) (ok.0 && ok.1)
            next next,
        refl,
      )

-- Rounds of the publisher send the queue's messages in the order in which they were pushed, one a
-- round, and remove each from the queue whether or not the socket takes it. As many rounds as there
-- are messages leave the queue empty.
pub publisher_lem :
    (env : Env) (oks : List (Bool × Bool)) (xs : List Message) (e : Engine)
    → Models env.bounds.queue_slots e.publish_queue xs
    → Models env.bounds.queue_slots
        (publisher_rounds env oks e).0.publish_queue
        (drop (length oks) xs)
      × ((publisher_rounds env oks e).1 ≡ frames_of oks xs)
unfolding publisher_rounds frames_of
publisher_lem env [] xs e m = (m, refl)
publisher_lem env (ok ∷ oks) [] e m =
    let (queue, sent) = publisher_lem env oks [] e m in
    rw (publisher_rounds, round_empty env ok e m)
      (
        subst (Models env.bounds.queue_slots (publisher_rounds env oks e).0.publish_queue)
            (drop-nil (length oks)) queue,
        sent ∙ frames_of-nil oks,
      )
publisher_lem env (ok ∷ oks) (x ∷ xs) e m =
    let (next, first) = round_some env ok x xs e m in
    let (queue, sent) = publisher_lem env oks xs (publisher_round env ok e).0 next in
    (queue, ap₂ ◌++◌ first sent)
