-- ===== src/Webhooks/Deliveries.antt =====
-- Proofs about the attempts to deliver: what one attempt records.
use dreamchat_image_platform.Common.{ℕ, String, Bool, true, false, ◌+◌, ◌≤◌, ◌<◌, ◌⊎◌, some, ◌≡◌}
use dreamchat_image_platform.Common.Tables.{find_row}
use dreamchat_image_platform.Webhooks.{
  Endpoint, Delivery, DeliveryStatus, delivered, failed, Hooks, Done, Reply, transport_error,
  http_status, Request, no_error, error, delivery_key,
}

abbrev pub is_done : Done → Bool
is_done no_error = true
is_done (error e) = false

-- The request that goes out: the stored bytes, to the endpoint's URL, signed with its secret.
abbrev pub posted : (String → String → String) → Endpoint → Delivery → Request
posted sign e d = record {
  url = e.url;
  body = d.payload;
  event = d.event_type;
  signature = sign e.secret d.payload;
}

-- The recorded HTTP status of a reply, 0 where there is none.
abbrev pub status_of : Reply → ℕ
status_of (transport_error message) = 0
status_of (http_status code) = code

-- A success exactly of a status from 200 to 299.
abbrev pub Accepts : Reply → Type 0
Accepts (transport_error message) = ⊥
Accepts (http_status code) = (200 ≤ code) × (code < 300)

-- The one delivery after an attempt: delivered, or failed.
abbrev pub Marked : String → DeliveryStatus → ℕ → Delivery → Hooks → Hooks → Type 0
Marked id status code d st t =
    (t.endpoints ≡ st.endpoints)
    × (message : String) × (find_row delivery_key id t.deliveries
        ≡ some (record d {
          status = status;
          attempt_count = d.attempt_count + 1;
          last_http_status = code;
          last_error = message;
        }))

-- What an attempt does with a reply: a mark that is not stored is an error and changes nothing; otherwise the
-- attempt is counted, and it returns no error and marks the delivery delivered exactly of a success.
abbrev pub Attempted : Bool → String → Delivery → Reply → Hooks → Done × Hooks → Type 0
Attempted false id d reply st r = (is_done r.0 ≡ false) × (r.1 ≡ st)
Attempted true id d reply st r =
    ((is_done r.0 ≡ true) × Accepts reply × Marked id delivered (status_of reply) d st r.1)
    ⊎ ((is_done r.0 ≡ false) × (¬ Accepts reply) × Marked id failed (status_of reply) d st r.1)
