-- ===== src/Reasons/Laws.antt =====
-- The codes that DefaultReasonMapper and canonical_reason_code give out.
use latentspeed.Prelude.{
  ◌≡◌, refl, sym, ap, ◌∙◌, ◌≢◌, ◌↔◌, [], ◌∷◌, true, false, ◌||◌, inl, inr, ◌⊎◌, if_ind, Bool-cases,
  arith,
}
use latentspeed.Prelude.Bytes.{
  Bytes, codes, str_eq, str_eq_iff, one_of, contains, is_empty, to_lower, map-to_lower_idem,
}
use latentspeed.Reasons.{
  or_text, canonical_of_lower, canonical_code, canonical_reason_of_lower, map_reason,
  rejected_reason, lower_ascii,
}

-- The reason codes of the contract, `ok` aside.
pub data FailureCode : Bytes → Type 0 where
  invalid_params : FailureCode (codes "invalid_params")
  risk_blocked : FailureCode (codes "risk_blocked")
  insufficient_balance : FailureCode (codes "insufficient_balance")
  post_only_violation : FailureCode (codes "post_only_violation")
  min_size : FailureCode (codes "min_size")
  price_out_of_bounds : FailureCode (codes "price_out_of_bounds")
  rate_limited : FailureCode (codes "rate_limited")
  network_error : FailureCode (codes "network_error")
  expired : FailureCode (codes "expired")
  venue_reject : FailureCode (codes "venue_reject")

abbrev pub Canonical : Bytes → Type 0
Canonical c = (c ≡ codes "ok") ⊎ FailureCode c

canonical_of_lower-Canonical : (s : Bytes) → Canonical (canonical_of_lower s)
unfolding canonical_of_lower
canonical_of_lower-Canonical s = if_ind Canonical _ (inl refl) (
    if_ind Canonical _ (inr invalid_params) (
      if_ind Canonical _ (inr risk_blocked) (
        if_ind Canonical _ (inr insufficient_balance) (
          if_ind Canonical _ (inr post_only_violation) (
            if_ind Canonical _ (inr min_size) (
              if_ind Canonical _ (inr price_out_of_bounds) (
                if_ind Canonical _ (inr rate_limited) (
                  if_ind Canonical _ (inr network_error) (
                    if_ind Canonical _ (inr expired)
                      (if_ind Canonical _ (inr venue_reject) (inr venue_reject)))))))))))

canonical_reason_of_lower-Canonical : (s : Bytes) → Canonical (canonical_reason_of_lower s)
unfolding canonical_reason_of_lower
canonical_reason_of_lower-Canonical s = if_ind Canonical _ (inl refl) (
    if_ind Canonical _ (inr invalid_params) (
      if_ind Canonical _ (inr risk_blocked) (
        if_ind Canonical _ (inr insufficient_balance) (
          if_ind Canonical _ (inr post_only_violation) (
            if_ind Canonical _ (inr min_size) (
              if_ind Canonical _ (inr price_out_of_bounds) (
                if_ind Canonical _ (inr rate_limited) (
                  if_ind Canonical _ (inr network_error) (
                    if_ind Canonical _ (inr expired)
                      (if_ind Canonical _ (inr venue_reject) (inr venue_reject)))))))))))

FailureCode-fixed : (c : Bytes) → FailureCode c → canonical_code c ≡ c
unfolding canonical_code one_of to_lower
FailureCode-fixed _ invalid_params = refl
FailureCode-fixed _ risk_blocked = refl
FailureCode-fixed _ insufficient_balance = refl
FailureCode-fixed _ post_only_violation = refl
FailureCode-fixed _ min_size = refl
FailureCode-fixed _ price_out_of_bounds = refl
FailureCode-fixed _ rate_limited = refl
FailureCode-fixed _ network_error = refl
FailureCode-fixed _ expired = refl
FailureCode-fixed _ venue_reject = refl

Canonical-fixed : (c : Bytes) → Canonical c → canonical_code c ≡ c
unfolding canonical_code one_of to_lower
Canonical-fixed c (inl e) = rw e refl
Canonical-fixed c (inr f) = FailureCode-fixed c f

-- Any code, in any case, becomes one of the eleven codes of the contract, and a code of the
-- contract is mapped to itself, so that mapping twice is mapping once.
canonical_code_lem :
    (raw : Bytes)
    → Canonical (canonical_code raw) × (canonical_code (canonical_code raw) ≡ canonical_code raw)
unfolding canonical_code
canonical_code_lem raw =
    let c = canonical_of_lower-Canonical (lower_ascii raw) in
    (c, Canonical-fixed (canonical_code raw) c)

-- The letter case of a code does not matter.
canonical_code-lower : (raw : Bytes) → canonical_code (lower_ascii raw) ≡ canonical_code raw
unfolding canonical_code
canonical_code-lower raw = ap canonical_of_lower (map-to_lower_idem raw)

data IsFailure (r : Bytes × Bytes) : Type 0 where
  failure : FailureCode r.0 → IsFailure r

IsFailure-code : {r : Bytes × Bytes} → IsFailure r → FailureCode r.0
IsFailure-code (failure f) = f

rejected_reason-IsFailure : (raw lower : Bytes) → IsFailure (rejected_reason raw lower)
unfolding rejected_reason
rejected_reason-IsFailure raw lower =
    (if_ind IsFailure (is_empty lower) {x = (codes "venue_reject", codes "Order rejected")}
      (failure venue_reject)
      (if_ind IsFailure
        (contains (codes "balance") lower || one_of lower ("insufficientspotbalancerejected" ∷ []))
        {x = (codes "insufficient_balance", or_text raw (codes "Insufficient balance"))}
        (failure insufficient_balance)
        (if_ind IsFailure (one_of lower ("tickrejected" ∷ "oraclerejected" ∷ []))
          {x = (codes "price_out_of_bounds", codes "Rejected by tick/oracle constraint")}
          (failure price_out_of_bounds)
          (if_ind IsFailure (one_of lower ("mintradentlrejected" ∷ "mintradespotntlrejected" ∷ []))
            {x = (codes "min_size", codes "Order notional below minimum")} (failure min_size)
            (if_ind IsFailure (one_of lower ("badalopxrejected" ∷ []))
              {x = (codes "post_only_violation", codes "Post-only would match immediately")}
              (failure post_only_violation)
              (if_ind IsFailure (one_of lower ("perpmaxpositionrejected" ∷ []))
                {x = (codes "risk_blocked", codes "Position exceeds margin tier limit")}
                (failure risk_blocked)
                (if_ind IsFailure (one_of lower ("perpmarginrejected" ∷ []))
                  {x = (codes "insufficient_balance", codes "Insufficient margin")}
                  (failure insufficient_balance)
                  (if_ind IsFailure (one_of lower ("reduceonlyrejected" ∷ []))
                    {x = (codes "invalid_params", codes "Reduce-only would increase position")}
                    (failure invalid_params)
                    (if_ind IsFailure
                      (one_of lower ("ioccancelrejected" ∷ "marketordernoliquidityrejected" ∷ []))
                      {x = (codes "venue_reject", codes "No liquidity for immediate execution")}
                      (failure venue_reject)
                      (if_ind IsFailure
                        (contains (codes "openinterest") lower
                          || contains (codes "to oaggressive") lower)
                        {x = (codes "venue_reject", or_text raw (codes "Open interest cap"))}
                        (failure venue_reject) (failure venue_reject)))))))))))

FailureCode-ne_ok : (c : Bytes) → FailureCode c → c ≢ codes "ok"
FailureCode-ne_ok _ invalid_params = λ e. cc
FailureCode-ne_ok _ risk_blocked = λ e. cc
FailureCode-ne_ok _ insufficient_balance = λ e. cc
FailureCode-ne_ok _ post_only_violation = λ e. cc
FailureCode-ne_ok _ min_size = λ e. cc
FailureCode-ne_ok _ price_out_of_bounds = λ e. cc
FailureCode-ne_ok _ rate_limited = λ e. cc
FailureCode-ne_ok _ network_error = λ e. cc
FailureCode-ne_ok _ expired = λ e. cc
FailureCode-ne_ok _ venue_reject = λ e. cc

rejected_mapping :
    (status raw : Bytes)
    → status ≡ codes "rejected"
    → ((map_reason status raw).status ≡ status) × FailureCode (map_reason status raw).reason_code
unfolding map_reason
rejected_mapping status raw h =
    let e = (str_eq_iff status (codes "rejected")).1 h in
    rw e (refl, IsFailure-code (rejected_reason-IsFailure raw (lower_ascii raw)))

other_mapping :
    (status raw : Bytes)
    → status ≢ codes "rejected"
    → ((map_reason status raw).status ≡ status) × ((map_reason status raw).reason_code ≡ codes "ok")
unfolding map_reason
other_mapping status raw h = ground (arith, str_eq_iff status (codes "rejected"))

-- A report keeps its status; its code is one of the contract, and is `ok` exactly when the status
-- is not "rejected".
pub map_reason_lem :
    (status raw : Bytes)
    → ((map_reason status raw).status ≡ status)
      × Canonical (map_reason status raw).reason_code
      × (((map_reason status raw).reason_code ≡ codes "ok") ↔ (status ≢ codes "rejected"))
map_reason_lem status raw = elim (Bool-cases (str_eq status (codes "rejected"))) [
  | inl e ↦
      let same = (str_eq_iff status (codes "rejected")).0 e in
      let (kept, f) = rejected_mapping status raw same in
      (kept, inr f, (λ k. absurd (FailureCode-ne_ok _ f k), λ ne. absurd (ne same)))
  | inr e ↦
      let ne : status ≢ codes "rejected" =
        λ same. absurd (true_ne (sym ((str_eq_iff status (codes "rejected")).1 same) ∙ e)) in
      let (kept, f) = other_mapping status raw ne in (kept, inl f, (λ k. ne, λ k. f))
]
  where
    true_ne : ¬ (true ≡ false)
    true_ne e = cc
