-- ===== src/Timers/Cancel.antt =====
-- `eloop_cancel_timeout`: which nodes stay, and how many go.
use event_loop.Eloop.{Timeout, Eloop, Env, all_ctx}
use event_loop.Prelude.{
  ◌==◌, if◌then◌else◌, Bool-cases, length, All, ℕ, ◌+◌, ◌≡◌, refl, inl, inr, Bool, true, false,
  ◌&&◌, ◌||◌, List, [], ◌∷◌, arith,
}
use event_loop.Timers.{on_unregister_wdt, matches, cancel_loop, eloop_cancel_timeout0}
use event_loop.Timers.Order.{IsSorted}

module _ (handler eloop_data user_data : ℕ) where
  -- A datum is the one that is asked for, or any is (ELOOP_ALL_CTX).
  abbrev pub is_meant : (asked datum : ℕ) → Bool
  is_meant asked datum = if asked == all_ctx then true else datum == asked

  -- A timeout with this handler and with both data as they are asked for.
  abbrev pub is_named : Timeout → Bool
  is_named t =
      if t.handler == handler
      then is_meant eloop_data t.eloop_data && is_meant user_data t.user_data
      else false

  matches-is_named : (t : Timeout) → matches handler eloop_data user_data t ≡ is_named t
  unfolding matches
  matches-is_named t = ground arith

  -- The nodes that are not named, in their order.
  pub keep : List Timeout → List Timeout
  keep [] = []
  keep (t ∷ rest) = let kept = keep rest in if is_named t then kept else t ∷ kept

  cancel_loop-keep :
      (env : Env) (is_wd : Bool) (xs : List Timeout) (e : Eloop)
      → let (kept, removed, e') = cancel_loop env handler eloop_data user_data is_wd xs e in
        (kept ≡ keep xs) × (removed + length kept ≡ length xs)
  unfolding cancel_loop keep
  cancel_loop-keep env is_wd [] e = (refl, omega arith)
  cancel_loop-keep env is_wd (t ∷ rest) e =
      let e' : Eloop = if t.is_wd_timeout || is_wd then on_unregister_wdt env t rest e else e in
      ground (
        arith,
        matches-is_named t,
        cancel_loop-keep env is_wd rest e,
        cancel_loop-keep env is_wd rest e',
      )

  -- A cancellation removes exactly the timeouts of the handler whose two data are each the one that is
  -- asked for, or any where ELOOP_ALL_CTX is; it leaves the others in their order, and returns the number
  -- of those that it removes.
  pub cancel_timeout_lem :
      (env : Env) (is_wd : Bool) (e : Eloop)
      → let (removed, e') = eloop_cancel_timeout0 env handler eloop_data user_data is_wd e in
        (e'.timeout ≡ keep e.timeout) × (removed + length e'.timeout ≡ length e.timeout)
  unfolding eloop_cancel_timeout0
  cancel_timeout_lem env is_wd e = cancel_loop-keep env is_wd e.timeout e

  keep-All : (P : Timeout → Type 0) (xs : List Timeout) → All P xs → All P (keep xs)
  unfolding keep
  keep-All P [] h = tt
  keep-All P (t ∷ xs) h = elim (Bool-cases (is_named t)) [
    | inl yes' ↦ rw yes' (keep-All P xs h.1)
    | inr no' ↦ rw no' (h.0, keep-All P xs h.1)
  ]

  keep-IsSorted : (xs : List Timeout) → IsSorted xs → IsSorted (keep xs)
  unfolding keep
  keep-IsSorted [] s = tt
  keep-IsSorted (t ∷ xs) s = elim (Bool-cases (is_named t)) [
    | inl yes' ↦ rw yes' (keep-IsSorted xs s.1)
    | inr no' ↦ rw no' (keep-All _ xs s.0, keep-IsSorted xs s.1)
  ]

  -- A cancellation keeps the queue in order.
  pub cancel_timeout-IsSorted :
      (env : Env) (is_wd : Bool) (e : Eloop)
      → IsSorted e.timeout
      → IsSorted (eloop_cancel_timeout0 env handler eloop_data user_data is_wd e).1.timeout
  cancel_timeout-IsSorted env is_wd e s =
      rw ((cancel_timeout_lem env is_wd e).0) (keep-IsSorted e.timeout s)
