-- ===== src/Engine/Publisher.antt =====
-- hft_publisher_thread: the rounds of its loop. The socket is ZeroMQ's: each of the two sends of a
-- message either takes its frame or, with dontwait, refuses it.
pub mod Laws
use latentspeed.Prelude.{
  List, [], ◌∷◌, ◌++◌, Bool, true, false, ◌&&◌, Option, none, some, if◌then◌else◌,
}
use latentspeed.Prelude.Bytes.{Bytes}
use latentspeed.Hft.SpscQueue.{try_pop}
use latentspeed.Hft.Stats.{inc}
use latentspeed.Engine.Types.{Message, Env, Engine}

pub data Frame : Type 0 where
  topic_frame : Bytes → Frame
  payload_frame : Bytes → Frame

-- What the socket takes of a message: the second frame is sent only behind the first.
unfoldable pub send_frames : Bool × Bool → Message → List Frame
send_frames (topic_ok, payload_ok) msg =
    if topic_ok
    then topic_frame msg.topic ∷ (if payload_ok then payload_frame msg.payload ∷ [] else [])
    else []

-- One round, with what the socket answers to the two sends: the engine and the frames that went.
unfoldable pub publisher_round : Env → Bool × Bool → Engine → Engine × List Frame
unfolding try_pop send_frames
publisher_round env ok e =
    let (q, out) = try_pop env.bounds.queue_slots e.publish_queue in
    elim out [
      | none ↦ (e, [])
      | some msg ↦
          let popped = record e { publish_queue = q } in
          (
            if ok.0 && ok.1
                then record popped {
                  stats = record popped.stats {
                    messages_published = inc popped.stats.messages_published;
                  };
                }
                else popped,
            send_frames ok msg,
          )
    ]

-- As many rounds as there are answers, with the frames in their order.
unfoldable pub publisher_rounds : Env → List (Bool × Bool) → Engine → Engine × List Frame
unfolding publisher_round
publisher_rounds env [] e = (e, [])
publisher_rounds env (ok ∷ oks) e =
    let (e', sent) = publisher_round env ok e in
    let (last, more) = publisher_rounds env oks e' in (last, sent ++ more)
