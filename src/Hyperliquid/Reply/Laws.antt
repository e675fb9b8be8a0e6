-- ===== src/Hyperliquid/Reply/Laws.antt =====
-- Two answers of the venue to a placement.
use latentspeed.Prelude.{ℕ, ◌≡◌, refl, false, not, none, some}
use latentspeed.Prelude.Bytes.{Bytes, codes, str_eq, is_empty, is_some, one_of}
use latentspeed.Prelude.Assoc.{lookup, lookup-put_self}
use latentspeed.Json.{
  Items, Fields, nil, item, object, member, as_text, as_uint64, as_object, or_keep,
}
use latentspeed.Hyperliquid.Ids.{Ids, remember_oid_clientid}
use latentspeed.Hyperliquid.Stream.{Env}
use latentspeed.Hyperliquid.UserFills.{user_fills, user_events, unattributed}
use latentspeed.Hyperliquid.Reply.{
  accepted_as, refusal, status_verdict, first_verdict, response_statuses, ws_reply, place_reply,
}

-- An item with none of the members that the loop over the statuses reads: its only member is, for
-- one, the text of an error.
abbrev pub IsMute : Fields → Type 0
IsMute st =
    (as_object (member "resting" st) ≡ none)
    × (as_object (member "filled" st) ≡ none)
    × (as_text (member "status" st) ≡ none)

abbrev pub AllMute : Items → Type 0
AllMute nil = Unit
AllMute (item (object st) items) = IsMute st × AllMute items
AllMute (item _ items) = AllMute items

mute_verdict :
    (env : Env) (id : Bytes) (st : Fields) (ids : Ids)
    → IsMute st
    → status_verdict env id st ids ≡ none
unfolding status_verdict refusal
mute_verdict env id st ids (resting, filled, status) =
    rw (status_verdict, resting, filled) (rw (refusal, status) refl)

no_verdict :
    (env : Env) (id : Bytes) (items : Items) (ids : Ids)
    → AllMute items
    → first_verdict (λ st. status_verdict env id st ids) items ≡ none
unfolding first_verdict
no_verdict env id nil ids h = refl
no_verdict env id (item (object st) items) ids h =
    rw (first_verdict, mute_verdict env id st ids h.0) (no_verdict env id items ids h.1)
no_verdict env id (item v items) ids h = no_verdict env id items ids h

-- The object that an answer is read from: its payload, if it has one.
abbrev pub root_of : Fields → Fields
root_of dr = or_keep (as_object (member "payload" dr)) dr

-- An answer that is ok as a whole, but of which each status only states something else, such as the
-- text of an error, counts as an acceptance without an order id of the venue.
pub place_reply_mute :
    (env : Env) (id : Bytes) (dr : Fields) (ids : Ids)
    → as_text (member "status" (root_of dr)) ≡ some (codes "ok")
    → AllMute (response_statuses (root_of dr))
    → place_reply env id (some dr) ids ≡ (accepted_as id none (some (codes "accepted")), ids)
unfolding place_reply ws_reply one_of str_eq
place_reply_mute env id dr ids ok mute =
    rw (place_reply, ok)
      (rw (ws_reply, no_verdict env id (response_statuses (root_of dr)) ids mute) refl)

-- An order that rests at the venue is accepted under the order id that the first status states. That
-- order id is known to be the client id's from then on: a fill under it on the channel userFills is
-- attributed without a search of the recent orders, while on userEvents they are still searched
-- unless the order id has a role.
pub place_reply_resting :
    (env : Env) (id : Bytes) (dr st rest : Fields) (items : Items) (n : ℕ) (ids : Ids)
    → as_text (member "status" (root_of dr)) ≡ some (codes "ok")
    → response_statuses (root_of dr) ≡ item (object st) items
    → as_object (member "resting" st) ≡ some rest
    → as_uint64 (member "oid" rest) ≡ some n
    → is_empty (env.to_string n) ≡ false
    → is_empty id ≡ false
    → ((place_reply env id (some dr) ids).0
        ≡ accepted_as id (some (env.to_string n)) (some (codes "accepted")))
      × (lookup (env.to_string n) (place_reply env id (some dr) ids).1.oid_to_clientid ≡ some id)
      × (unattributed user_fills (env.to_string n) (place_reply env id (some dr) ids).1 ≡ false)
      × (unattributed user_events (env.to_string n) (place_reply env id (some dr) ids).1
          ≡ not (is_some (lookup (env.to_string n) ids.oid_to_role)))
unfolding place_reply ws_reply one_of str_eq first_verdict unattributed remember_oid_clientid
place_reply_resting env id dr st rest items n ids ok first resting oid named known =
    let verdict : status_verdict env id st ids
        ≡ some (
          accepted_as id (some (env.to_string n)) (some (codes "accepted")),
          remember_oid_clientid (env.to_string n) id ids,
        ) =
      rw (status_verdict, resting, oid) refl in
    let reply : place_reply env id (some dr) ids ≡ (
      accepted_as id (some (env.to_string n)) (some (codes "accepted")),
      remember_oid_clientid (env.to_string n) id ids,
    ) =
      rw (place_reply, ok) (rw (ws_reply, first) (rw (first_verdict, verdict) refl)) in
    let found : lookup (env.to_string n)
          (remember_oid_clientid (env.to_string n) id ids).oid_to_clientid
        ≡ some id =
      rw (remember_oid_clientid, named, known)
        (lookup-put_self (env.to_string n) id ids.oid_to_clientid) in
    let role : (remember_oid_clientid (env.to_string n) id ids).oid_to_role ≡ ids.oid_to_role =
      rw (remember_oid_clientid, named, known) refl in
    rw reply (refl, found, rw found refl, rw (found, role) refl)
