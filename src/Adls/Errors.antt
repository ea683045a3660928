-- ===== src/Adls/Errors.antt =====
-- auto_workflow/connectors/adls2.py: `_map_error`, with the Azure SDK installed.
use auto_workflow.Base.{
  List, [], ◌∷◌, Bool, Option, none, some, if◌then◌else◌, nat_eq, Str, codes, any, ℕ,
}
use auto_workflow.Connectors.{
  client_authentication, resource_not_found, resource_exists, http_response, service_request,
  service_response, timeout, transient, auth, permanent, not_found, Error, error,
}
use auto_workflow.Postgres.Errors.{lower, contains}

abbrev pub unauthorised : Error
unauthorised = error auth (codes "adls2 authentication failed")

abbrev pub missing : Error
missing = error not_found (codes "adls2 resource not found")

abbrev pub overdue : Error
overdue = error timeout (codes "adls2 operation timed out")

abbrev pub has_any : List Str → Str → Bool
has_any phrases msg = any (λ s. contains s msg) phrases

-- The part that looks at the message.
unfoldable pub by_text : Str → Error
unfolding lower contains
by_text message =
    let msg = lower message in
    if has_any (codes "not found" ∷ codes "404" ∷ []) msg
    then missing
    else (if has_any (codes "auth" ∷ codes "credential" ∷ codes "denied" ∷ []) msg
        then unauthorised
        else (if has_any (codes "timeout" ∷ codes "timed out" ∷ codes "read timeout" ∷ []) msg
            then overdue
            else (if has_any
                  (codes "unavailable" ∷ codes "reset" ∷ codes "throttle" ∷ codes "retry" ∷ []) msg
                then error transient (codes "transient adls2 error")
                else error permanent (codes "adls2 operation failed"))))

abbrev pub is_one_of : List ℕ → ℕ → Bool
is_one_of ns n = any (λ m. nat_eq m n) ns

-- An HttpResponseError, by its status.
unfoldable pub by_status : Option ℕ → Str → Error
unfolding by_text
by_status none message = by_text message
by_status (some n) message =
    if is_one_of (401 ∷ 403 ∷ []) n
    then unauthorised
    else (if nat_eq n 404
        then missing
        else (if nat_eq n 408
            then overdue
            else (if is_one_of (429 ∷ 500 ∷ 502 ∷ 503 ∷ 504 ∷ []) n
                then error transient (codes "transient adls2 error")
                else by_text message)))

-- A ServiceRequestError
unfoldable pub by_request : Str → Error
unfolding lower contains
by_request message =
    if has_any (codes "timeout" ∷ codes "timed out" ∷ []) (lower message)
    then overdue
    else error transient (codes "transient adls2 request error")

unfoldable pub map_error : Error → Error
unfolding by_status by_text by_request
map_error e = elim e.kind [
  | client_authentication ↦ unauthorised
  | resource_not_found ↦ missing
  | service_request ↦ by_request e.message
  | service_response ↦ error transient (codes "transient adls2 response error")
  | resource_exists ↦ by_status e.status e.message
  | http_response ↦ by_status e.status e.message
  | _ ↦ by_text e.message
]
