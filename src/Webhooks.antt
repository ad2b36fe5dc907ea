-- ===== src/Webhooks.antt =====
-- internal/webhooks: the endpoint of a tenant, the record of a delivery, and the attempts to deliver it.
-- The signature is a parameter, as HMAC-SHA256 is Go's library, and so is what the receiver answers.
pub mod Endpoints
pub mod Deliveries
mod Tests
use dreamchat_image_platform.Common.{
  ℕ, zero, suc, String, Bool, true, false, ◌&&◌, ◌==◌, ltb, leb, ◌+◌, Option, none, some, List, [],
  ◌∷◌, if◌then◌else◌,
}
use dreamchat_image_platform.Common.Tables.{find_row, update_row}

-- webhook_endpoints
pub record Endpoint : Type 0 where
  pub id : String
  pub tenant_id : String
  pub url : String
  pub secret : String
  pub is_active : Bool

pub data DeliveryStatus : Type 0 where
  pending delivered failed : DeliveryStatus

-- webhook_deliveries
pub record Delivery : Type 0 where
  pub id : String
  pub tenant_id : String
  pub webhook_endpoint_id : String
  pub event_type : String
  pub generation_job_id : Option String
  pub payload : String
  pub status : DeliveryStatus
  pub attempt_count : ℕ
  pub last_http_status : ℕ
  pub last_error : String

pub record Hooks : Type 0 where
  pub endpoints : List Endpoint
  pub deliveries : List Delivery

pub data WebhookError : Type 0 where
  not_found active_exists id_exists secret_failed transport_failed enqueue_failed : WebhookError
  mark_failed : WebhookError
  non_2xx : ℕ → WebhookError

pub data Result {ℓ} (A : Type ℓ) : Type ℓ where
  ok : A → Result A
  err : WebhookError → Result A

-- A Go function that returns only an error.
pub data Done : Type 0 where
  no_error : Done
  error : WebhookError → Done

abbrev pub endpoint_key : Endpoint → String
endpoint_key e = e.id

abbrev pub delivery_key : Delivery → String
delivery_key d = d.id

abbrev is_active_of : String → Endpoint → Bool
is_active_of tenant e = e.tenant_id == tenant && e.is_active

-- GetActiveWebhookEndpointByTenant
unfoldable pub get_active_endpoint : String → List Endpoint → Option Endpoint
get_active_endpoint tenant [] = none
get_active_endpoint tenant (e ∷ rows) =
    if is_active_of tenant e then some e else get_active_endpoint tenant rows

-- UpdateWebhookEndpointURL; `none` is no row.
unfoldable pub update_endpoint_url :
    String → String → String → List Endpoint → Option (Endpoint × List Endpoint)
update_endpoint_url id tenant url [] = none
update_endpoint_url id tenant url (e ∷ rows) =
    if e.id == id && is_active_of tenant e
    then some (record e { url = url }, record e { url = url } ∷ rows)
    else (elim (update_endpoint_url id tenant url rows) [
      | none ↦ none
      | some (updated, rest) ↦ some (updated, e ∷ rest)
    ])

-- InsertWebhookEndpoint, under the primary key and the unique index on a tenant's active endpoint.
unfoldable pub insert_endpoint :
    String → String → String → String → List Endpoint → Result (Endpoint × List Endpoint)
insert_endpoint id tenant url secret rows = elim (find_row endpoint_key id rows) [
  | some e ↦ err id_exists
  | none ↦ elim (get_active_endpoint tenant rows) [
    | some e ↦ err active_exists
    | none ↦
        let e : Endpoint = record {
          id = id;
          tenant_id = tenant;
          url = url;
          secret = secret;
          is_active = true;
        } in
        ok (e, e ∷ rows)
  ]
]

abbrev or_not_found : Option (Endpoint × List Endpoint) → Result (Endpoint × List Endpoint)
or_not_found none = err not_found
or_not_found (some r) = ok r

-- The insert of UpsertEndpoint, after generateSecret, which may fail.
unfoldable pub insert_with_secret :
    String → Option String → String → String → List Endpoint → Result (Endpoint × List Endpoint)
insert_with_secret id none tenant url rows = err secret_failed
insert_with_secret id (some secret) tenant url rows = insert_endpoint id tenant url secret rows

-- UpsertEndpoint; the id and the secret are those that are drawn for a new endpoint. The two statements are
-- no transaction: `seen` are the rows that the first reads, `rows` those that the second writes.
unfoldable pub upsert_endpoint :
    String
    → Option String
    → String
    → String
    → List Endpoint
    → List Endpoint
    → Result (Endpoint × List Endpoint)
upsert_endpoint id drawn tenant url seen rows = elim (get_active_endpoint tenant seen) [
  | some existing ↦ or_not_found (update_endpoint_url existing.id tenant url rows)
  | none ↦ insert_with_secret id drawn tenant url rows
]

-- The queue's client for deliveries, and the serialized event; `none` is a process without wiring.
unfoldable pub emit :
    Option (String → Bool) → String → String → String → String → String → Hooks → Done × Hooks
emit none id tenant event job body st = (no_error, st)
emit (some enqueue) id tenant event job body st = elim (get_active_endpoint tenant st.endpoints) [
  | none ↦ (no_error, st)
  | some endpoint ↦
      let st' = record st {
        deliveries =
            record {
              id = id;
              tenant_id = tenant;
              webhook_endpoint_id = endpoint.id;
              event_type = event;
              generation_job_id = if job == "" then none else some job;
              payload = body;
              status = pending;
              attempt_count = 0;
              last_http_status = 0;
              last_error = "";
            }
            ∷ st.deliveries;
      } in
      (if enqueue id then no_error else error enqueue_failed, st')
]

-- MarkWebhookDeliveryResult
unfoldable pub mark_delivery_result :
    String → DeliveryStatus → ℕ → String → List Delivery → List Delivery
mark_delivery_result id status http_status message = update_row delivery_key id (λ d. record d {
  status = status;
  attempt_count = d.attempt_count + 1;
  last_http_status = http_status;
  last_error = message;
})

-- What a POST comes back with: a transport error (or a URL that makes no request), or a status.
pub data Reply : Type 0 where
  transport_error : String → Reply
  http_status : ℕ → Reply

pub record Request : Type 0 where
  pub url : String
  pub body : String
  pub event : String
  pub signature : String

abbrev pub is_2xx : ℕ → Bool
is_2xx code = leb 200 code && ltb code 300

-- MarkDeliveryResult, which the database may fail: its error comes before the one that is recorded.
abbrev mark_and_return : Bool → Done → List Delivery → Hooks → Done × Hooks
mark_and_return false answer marked st = (error mark_failed, st)
mark_and_return true answer marked st = (answer, record st { deliveries = marked })

-- The recorded text of a status leaves out the number that follows it. The first argument is whether the
-- database takes the mark.
unfoldable pub record_reply : Bool → String → Reply → Hooks → Done × Hooks
record_reply stored id (transport_error message) st =
    mark_and_return stored (error transport_failed)
      (mark_delivery_result id failed 0 message st.deliveries) st
record_reply stored id (http_status code) st =
    if is_2xx code
    then mark_and_return stored no_error (mark_delivery_result id delivered code "" st.deliveries)
        st
    else mark_and_return stored (error (non_2xx code))
        (mark_delivery_result id failed code "non-2xx response" st.deliveries) st

-- The request of a delivery: the stored bytes, signed with the endpoint's secret.
unfoldable pub request_of : (String → String → String) → Endpoint → Delivery → Request
request_of sign endpoint delivery = record {
  url = endpoint.url;
  body = delivery.payload;
  event = delivery.event_type;
  signature = sign endpoint.secret delivery.payload;
}

-- Handle; `post` is the receiver, and `stored` whether the database takes the mark.
unfoldable pub handle :
    (String → String → String) → (Request → Reply) → Bool → String → Hooks → Done × Hooks
handle sign post stored id st = elim (find_row delivery_key id st.deliveries) [
  | none ↦ (error not_found, st)
  | some delivery ↦ elim (find_row endpoint_key delivery.webhook_endpoint_id st.endpoints) [
    | none ↦ (error not_found, st)
    | some endpoint ↦ record_reply stored id (post (request_of sign endpoint delivery)) st
  ]
]
