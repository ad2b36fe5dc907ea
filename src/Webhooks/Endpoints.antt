-- ===== src/Webhooks/Endpoints.antt =====
-- Proofs about the endpoint of a tenant: what an upsert stores is what is read, and the secret stays.
use dreamchat_image_platform.Common.{
  String, true, Option, none, some, List, [], ◌∷◌, ◌≡◌, refl, inl, inr, Option-cases, Bool-cases,
  arith, eq_refl, ◌≢◌, ◌⊎◌, subst,
}
use dreamchat_image_platform.Common.Tables.{find_row}
use dreamchat_image_platform.Webhooks.{
  Endpoint, Result, ok, err, is_active_of, get_active_endpoint, update_endpoint_url,
  insert_endpoint, upsert_endpoint, insert_with_secret, endpoint_key, WebhookError, secret_failed,
  id_exists, active_exists,
}

-- The endpoint that is read is active, and the tenant's.
get_active_endpoint-active :
    (tenant : String) (e : Endpoint) (rows : List Endpoint)
    → get_active_endpoint tenant rows ≡ some e
    → is_active_of tenant e ≡ true
unfolding get_active_endpoint
get_active_endpoint-active tenant e [] h = cc
get_active_endpoint-active tenant e (r ∷ rows) h = elim (Bool-cases (is_active_of tenant r)) [
  | inl a ↦ let same : r ≡ e = cc (rw (a, get_active_endpoint) at h) in rw same at a
  | inr a ↦ get_active_endpoint-active tenant e rows (rw (a, get_active_endpoint) at h)
]

-- Updating the URL of the endpoint that is read finds a row of the tenant.
update_endpoint_url-found :
    (tenant url : String) (e : Endpoint) (rows : List Endpoint)
    → get_active_endpoint tenant rows ≡ some e
    → (rows' : List Endpoint) × (update_endpoint_url e.id tenant url rows
        ≡ some (record e { url = url }, rows'))
      × (get_active_endpoint tenant rows' ≡ some (record e { url = url }))
unfolding get_active_endpoint update_endpoint_url
update_endpoint_url-found tenant url e [] h = cc
update_endpoint_url-found tenant url e (r ∷ rows) h = elim (Bool-cases (is_active_of tenant r)) [
  | inl a ↦
      let same : r ≡ e = cc (rw (a, get_active_endpoint) at h) in
      let a' : is_active_of tenant e ≡ true = rw same at a in
      rw same (record e { url = url } ∷ rows, rw (eq_refl e.id, a') refl, rw a' refl)
  | inr a ↦
      let (rest, found, read) =
        update_endpoint_url-found tenant url e rows (rw (a, get_active_endpoint) at h) in
      (r ∷ rest, ground (arith, a, found), rw a read)
]

get_active_endpoint_skip :
    (tenant : String) (e : Endpoint) (rows : List Endpoint)
    → is_active_of tenant e ≡ true
    → get_active_endpoint tenant (e ∷ rows) ≡ some e
unfolding get_active_endpoint
get_active_endpoint_skip tenant e rows h = rw h refl

-- What an upsert that has seen no endpoint does with the rows that it writes.
abbrev pub Inserted :
    String
    → Option String
    → String
    → String
    → List Endpoint
    → Result (Endpoint × List Endpoint)
    → Type 0
Inserted id drawn tenant url rows (ok (e, after)) =
    (get_active_endpoint tenant rows ≡ none)
    × (find_row endpoint_key id rows ≡ none)
    × (drawn ≡ some e.secret)
    × (e.url ≡ url)
    × (get_active_endpoint tenant after ≡ some e)
    × (after ≡ e ∷ rows)
Inserted id drawn tenant url rows (err x) =
    ((x ≡ secret_failed) × (drawn ≡ none))
    ⊎ (((x ≡ id_exists) × (find_row endpoint_key id rows ≢ none))
        ⊎ ((x ≡ active_exists) × (get_active_endpoint tenant rows ≢ none)))

insert_with_secret-Inserted :
    (id : String) (drawn : Option String) (tenant url : String) (rows : List Endpoint)
    → Inserted id drawn tenant url rows (insert_with_secret id drawn tenant url rows)
unfolding insert_with_secret insert_endpoint
insert_with_secret-Inserted id none tenant url rows = inl (refl, refl)
insert_with_secret-Inserted id (some secret) tenant url rows =
    elim (Option-cases (find_row endpoint_key id rows)) [
      | inr (old, f) ↦ rw (insert_with_secret, insert_endpoint, f) (inr (inl (refl, λ q. cc)))
      | inl f ↦ elim (Option-cases (get_active_endpoint tenant rows)) [
        | inr (e, a) ↦ rw (insert_with_secret, insert_endpoint, f, a) (inr (inr (refl, λ q. cc)))
        | inl a ↦
            rw (insert_with_secret, insert_endpoint, f, a)
              (
                a,
                f,
                refl,
                refl,
                get_active_endpoint_skip tenant _ rows (rw (eq_refl tenant) refl),
                refl,
              )
      ]
    ]

-- An upsert whose two statements see the same rows. Where the tenant has an active endpoint, it never fails:
-- the endpoint that is read afterwards is the one before with the new URL, its secret and id kept, and
-- no secret needs to be drawn. Where there is none, what is read afterwards is the new endpoint that it
-- returns, with the URL and the drawn secret; it fails only for want of a secret, or where the drawn id
-- is stored.
pub upsert_endpoint-Upserted :
    (id : String) (drawn : Option String) (tenant url : String) (rows : List Endpoint)
    → ((e : Endpoint) × (after : List Endpoint) × (get_active_endpoint tenant rows ≡ some e)
        × (upsert_endpoint id drawn tenant url rows rows ≡ ok (record e { url = url }, after))
        × (get_active_endpoint tenant after ≡ some (record e { url = url })))
      ⊎ ((get_active_endpoint tenant rows ≡ none)
          × Inserted id drawn tenant url rows (upsert_endpoint id drawn tenant url rows rows))
unfolding upsert_endpoint
upsert_endpoint-Upserted id drawn tenant url rows =
    elim (Option-cases (get_active_endpoint tenant rows)) [
      | inl none_yet ↦ inr (
        none_yet,
        rw (upsert_endpoint, none_yet) (insert_with_secret-Inserted id drawn tenant url rows),
      )
      | inr (e, found) ↦
          let (rest, updated, read) = update_endpoint_url-found tenant url e rows found in
          inl (e, rest, found, rw (upsert_endpoint, found, updated) refl, read)
    ]

Inserted-err :
    (id : String) (drawn : Option String) (tenant url : String) (rows : List Endpoint)
    (e : Endpoint)
    → get_active_endpoint tenant rows ≡ some e
    → (r : Result (Endpoint × List Endpoint)) → Inserted id drawn tenant url rows r
    → (x : WebhookError) × (r ≡ err x)
Inserted-err id drawn tenant url rows e there (err x) i = (x, refl)
Inserted-err id drawn tenant url rows e there (ok (e', after)) (free, _, _, _, _, _) = cc

-- Of two creations that both have seen no endpoint of the tenant, at most one succeeds: where the second
-- writes to the rows that the first has left with its endpoint, it fails, whatever it has drawn.
pub upsert_endpoint-race :
    (id id' : String) (drawn drawn' : Option String) (tenant url url' : String)
    (seen rows after : List Endpoint) (e : Endpoint)
    → get_active_endpoint tenant seen ≡ none
    → upsert_endpoint id drawn tenant url seen rows ≡ ok (e, after)
    → (x : WebhookError) × (upsert_endpoint id' drawn' tenant url' seen after ≡ err x)
unfolding upsert_endpoint
upsert_endpoint-race id id' drawn drawn' tenant url url' seen rows after e unseen h =
    let first =
      subst (λ r. Inserted id drawn tenant url rows r) (rw (upsert_endpoint, unseen) at h)
        (insert_with_secret-Inserted id drawn tenant url rows) in
    let (_, _, _, _, read, _) = first in
    rw (upsert_endpoint, unseen)
      (Inserted-err id' drawn' tenant url' after e read _
        (insert_with_secret-Inserted id' drawn' tenant url' after))
