-- ===== src/Webhooks/Tests.antt =====
-- The theorems about webhooks at concrete tables, and an attempt at one delivery.
use dreamchat_image_platform.Webhooks.{record_reply}
use dreamchat_image_platform.Common.{String, true, none, ◌⊎◌, List, some, [], ◌∷◌, ◌≡◌, refl}
use dreamchat_image_platform.Common.Tables.{find_row}
use dreamchat_image_platform.Webhooks.{
  Endpoint, Delivery, pending, Hooks, http_status, get_active_endpoint, upsert_endpoint, handle,
  non_2xx, error, WebhookError, ok, err, insert_with_secret, insert_endpoint,
}
use dreamchat_image_platform.Webhooks.Endpoints.{
  Inserted, upsert_endpoint-Upserted, upsert_endpoint-race,
}

abbrev endpoint : Endpoint
endpoint = record {
  id = "we_1";
  tenant_id = "t1";
  url = "https://example.test/hook";
  secret = "whsec_1";
  is_active = true;
}

abbrev delivery : Delivery
delivery = record {
  id = "wd_1";
  tenant_id = "t1";
  webhook_endpoint_id = "we_1";
  event_type = "generation_job.completed";
  generation_job_id = some "job_1";
  payload = "{}";
  status = pending;
  attempt_count = 0;
  last_http_status = 0;
  last_error = "";
}

abbrev hooks : Hooks
hooks = record { endpoints = endpoint ∷ []; deliveries = delivery ∷ [] }

abbrev sign : String → String → String
sign secret body = secret

-- An attempt that a 500 answers.
records_500 : (handle sign (λ _. http_status 500) true "wd_1" hooks).0 ≡ error (non_2xx 500)
unfolding handle find_row record_reply
records_500 = refl

upsert_endpoint-Upserted_example :
    ((e : Endpoint) × (after : List Endpoint) × (get_active_endpoint "t1" (endpoint ∷ []) ≡ some e)
      × (upsert_endpoint "we_2" none "t1" "https://example.test/new" (endpoint ∷ []) (endpoint ∷ [])
          ≡ ok (record e { url = "https://example.test/new" }, after))
      × (get_active_endpoint "t1" after ≡ some (record e { url = "https://example.test/new" })))
    ⊎ ((get_active_endpoint "t1" (endpoint ∷ []) ≡ none)
        × Inserted "we_2" none "t1" "https://example.test/new" (endpoint ∷ []) (
            upsert_endpoint "we_2" none "t1" "https://example.test/new"
              (endpoint ∷ [])
              (endpoint ∷ [])))
upsert_endpoint-Upserted_example =
    upsert_endpoint-Upserted "we_2" none "t1" "https://example.test/new" (endpoint ∷ [])

creates :
    upsert_endpoint "we_1" (some "whsec_1") "t1" "https://example.test/hook" [] []
    ≡ ok (endpoint, endpoint ∷ [])
unfolding upsert_endpoint get_active_endpoint insert_with_secret insert_endpoint find_row
creates = refl

none_seen : get_active_endpoint "t1" [] ≡ none
unfolding get_active_endpoint
none_seen = refl

upsert_endpoint-race_example :
    (x : WebhookError) × (upsert_endpoint "we_2"
        (some "whsec_2")
        "t1"
        "https://example.test/new"
        []
        (endpoint ∷ [])
      ≡ err x)
upsert_endpoint-race_example =
    upsert_endpoint-race "we_1" "we_2" (some "whsec_1") (some "whsec_2") "t1"
      "https://example.test/hook" "https://example.test/new" [] [] (endpoint ∷ []) endpoint
      none_seen creates
