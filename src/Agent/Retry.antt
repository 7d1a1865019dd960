-- ===== src/Agent/Retry.antt =====
-- The delivery of a result (`_submit_result_with_retry` of deepagent/deepagent/callback.py).
use it_asset_inventory.Base.{ℕ, zero, suc, ◌+◌, String, Option, none, some, ◌==◌, if◌then◌else◌}

-- What a request ends in: an exception, or a response with its status, `none` where its body is no JSON.
pub data Reply : Type 0 where
  transport_error : String → Reply
  response : ℕ → Option String → Reply

-- What the loop ends in, with the number of requests that were sent.
pub data Delivery : Type 0 where
  delivered : String → ℕ → Delivery
  gave_up : ℕ → Delivery

-- The body of a reply that counts as a success.
abbrev pub accepted : Reply → Option String
accepted (transport_error e) = none
accepted (response status body) = if status == 200 then body else none

-- `for _attempt in range(3)`: `reply` is the answer to each request by its number; rounds left and requests sent.
unfoldable pub attempts : (ℕ → Reply) → ℕ → ℕ → Delivery
attempts reply zero sent = gave_up sent
attempts reply (suc left) sent = elim (accepted (reply sent)) [
  | some body ↦ delivered body (sent + 1)
  | none ↦ attempts reply left (sent + 1)
]

-- `_submit_result_with_retry`.
abbrev pub submit_result_with_retry : (ℕ → Reply) → Delivery
submit_result_with_retry reply = attempts reply 3 0
