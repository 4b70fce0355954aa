-- ===== src/Control/Requests.antt =====
-- internal/control/service.go: the cache of answered requests, and their fingerprints.
pub mod Fingerprints
pub mod Cache
use fallout_terminal.Common.{
  ℕ, Bool, true, false, not, ◌&&◌, ◌||◌, Option, none, some, List, [], ◌∷◌, ◌++◌, Bytes, Dict,
  equal, lookup, insert, delete, has, before, decimal, length, leb, utf8, if◌then◌else◌,
}
use fallout_terminal.Domain.Coordination.{
  ActionReason, ActionResult, RequestResultRecord, LogicalSession, ProcessRuntime,
}

abbrev pub cached_in : Option LogicalSession → Bytes → Option RequestResultRecord
cached_in none request = none
cached_in (some session) request = lookup request session.request_results

-- `requestResult`.
unfoldable pub request_result : ProcessRuntime → Bytes → Bytes → Option RequestResultRecord
unfolding lookup
request_result runtime session request = cached_in (lookup session runtime.sessions_by_id) request

-- The loop that finds the lexically smallest request ID.
unfoldable pub smallest_from : Bytes → Dict RequestResultRecord → Bytes
unfolding equal before
smallest_from evict [] = evict
smallest_from evict ((candidate, _) ∷ rest) =
    smallest_from (if equal evict [] || before candidate evict then candidate else evict) rest

-- One replay record put in a cache, which holds at most `limit`.
unfoldable pub store_in :
    ℕ → Bytes → RequestResultRecord → Dict RequestResultRecord → Dict RequestResultRecord
unfolding lookup insert delete smallest_from
store_in limit request entry cache =
    let kept =
      if not (has request cache) && leb limit (length cache)
      then delete (smallest_from [] cache) cache
      else cache in
    insert request entry kept

abbrev pub store_for :
    ProcessRuntime
    → ℕ
    → Bytes
    → Option LogicalSession
    → Bytes
    → RequestResultRecord
    → ProcessRuntime
store_for runtime limit id none request entry = runtime
store_for runtime limit id (some session) request entry = record runtime {
  sessions_by_id =
      insert id
        (record session { request_results = store_in limit request entry session.request_results })
        runtime.sessions_by_id;
}

-- `storeRequestResult`.
unfoldable pub store_request_result :
    ℕ → ProcessRuntime → Bytes → Bytes → RequestResultRecord → ProcessRuntime
unfolding lookup insert store_in
store_request_result limit runtime session request entry =
    store_for runtime limit session (lookup session runtime.sessions_by_id) request entry

unfoldable pub cleared : Dict LogicalSession → Dict LogicalSession
cleared [] = []
cleared ((id, session) ∷ sessions) =
    (id, record session { request_results = [] }) ∷ cleared sessions

-- `clearRequestResults`.
unfoldable pub clear_request_results : ProcessRuntime → ProcessRuntime
unfolding cleared
clear_request_results runtime = record runtime { sessions_by_id = cleared runtime.sessions_by_id }

-- `%d:%s;` of a field's length and the field.
abbrev pub printed : Bytes → Bytes → Bytes
printed field rest = decimal (length field) ++ (b':' ∷ field ++ (b';' ∷ rest))

-- `fingerprintFields`.
unfoldable pub fingerprint_fields : List Bytes → Bytes
unfolding decimal
fingerprint_fields [] = []
fingerprint_fields (field ∷ fields) = printed field (fingerprint_fields fields)

-- `rejectedSelection` and `rejectedAction`.
abbrev pub rejected_result : Bytes → ActionReason → ℕ → ActionResult
rejected_result request reason revision = record {
  request_id = request;
  accepted = false;
  reason = reason;
  revision = revision;
}
