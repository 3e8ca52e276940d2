-- ===== src/PendingRequestPool.antt =====
-- packages/vhal-types/aidl/impl/4/utils/common/{include/PendingRequestPool.h,
-- src/PendingRequestPool.cpp}: the requests that wait for an answer, by client, and their timeouts.
-- A method takes what `elapsedRealtimeNano` returns as `now`, and the callbacks that it calls are
-- part of its result, in the order of the calls.
pub mod Ids
pub mod Add
pub mod Finish
pub mod Timeout
pub mod Invariant
pub mod History
mod Tests
use vhal_core.Prelude.{
  ℕ, ◌+◌, ◌-◌, ◌%◌, ◌^◌, Bool, true, false, ◌||◌, Option, none, some, List, [], ◌∷◌, ◌++◌, lookup,
  map, length, is_empty, ℕ_discrete, ltb, leb, if◌then◌else◌,
}
use vhal_core.Prelude.Int.{ℤ, ℤ_discrete}
use vhal_core.Prelude.Dict.{Dict, insert, remove}
use vhal_core.Prelude.Sets.{contains, erase}
use vhal_core.Prelude.Sets
use vhal_core.HalTypes.{VhalResult, ok, err, invalid_arg, try_again}

-- `MAX_PENDING_REQUEST_PER_CLIENT`
abbrev pub max_pending_request_per_client : ℕ
max_pending_request_per_client = 10000

-- A callback is known by its identity.
pub record PendingRequest : Type 0 where
  pub request_ids : List ℤ
  pub timeout_timestamp : ℕ
  pub callback : ℕ

-- A client is the address of its data structure.
pub record PendingRequestPool : Type 0 where
  pub timeout_in_nano : ℕ
  pub pending_requests_by_client : Dict ℕ (List PendingRequest)

unfoldable pub init : ℕ → PendingRequestPool
init timeout = record { timeout_in_nano = timeout; pending_requests_by_client = [] }

-- Some of `ids` is among `pending`: the inner loop of `addRequests`.
unfoldable pub any_pending : List ℤ → List ℤ → Bool
any_pending [] pending = false
any_pending (i ∷ ids) pending = contains ℤ_discrete i pending || any_pending ids pending

-- The loop over the client's requests: `none` on a duplicate, the number of pending IDs otherwise.
unfoldable pub scan : List ℤ → List PendingRequest → ℕ → Option ℕ
scan ids [] count = some count
scan ids (r ∷ rs) count =
    let rest = scan ids rs (count + length r.request_ids) in
    if any_pending ids r.request_ids then none else rest

-- The rest of `addRequests`, from the test of the limit on (a difference of two `size_t`).
unfoldable pub push_back :
    ℕ
    → List PendingRequest
    → ℕ
    → List ℤ
    → ℕ
    → ℕ
    → PendingRequestPool
    → PendingRequestPool × VhalResult (Unit {0})
push_back client rs count ids callback now p =
    if ltb ((max_pending_request_per_client + 2 ^ 64 - count) % 2 ^ 64) (length ids)
    then (p, err try_again)
    else (
      record p {
        pending_requests_by_client =
            insert ℕ_discrete client
              (rs
                ++ record {
                  request_ids = ids;
                  timeout_timestamp = now + p.timeout_in_nano;
                  callback = callback;
                }
                  ∷ [])
              p.pending_requests_by_client;
      },
      ok tt,
    )

unfoldable pub add_requests :
    ℕ → List ℤ → ℕ → ℕ → PendingRequestPool → PendingRequestPool × VhalResult (Unit {0})
unfolding push_back
add_requests client ids callback now p =
    elim (lookup ℕ_discrete client p.pending_requests_by_client) [
      | some rs ↦ elim (scan ids rs 0) [
        | none ↦ (p, err invalid_arg)
        | some count ↦ push_back client rs count ids callback now p
      ]
      | none ↦ push_back client [] 0 ids callback now (record p {
        pending_requests_by_client = insert ℕ_discrete client [] p.pending_requests_by_client;
      })
    ]

-- The loop of `isRequestPendingLocked`.
unfoldable pub is_pending_in : ℤ → List PendingRequest → Bool
is_pending_in i [] = false
is_pending_in i (r ∷ rs) = contains ℤ_discrete i r.request_ids || is_pending_in i rs

unfoldable pub is_request_pending : ℕ → ℤ → PendingRequestPool → Bool
is_request_pending client i p = elim (lookup ℕ_discrete client p.pending_requests_by_client) [
  | none ↦ false
  | some rs ↦ is_pending_in i rs
]

-- The loop of `countPendingRequests`.
unfoldable pub count_in : List PendingRequest → ℕ
count_in [] = 0
count_in (r ∷ rs) = length r.request_ids + count_in rs

-- `countPendingRequests(clientId)`
unfoldable pub count_pending_requests : ℕ → PendingRequestPool → ℕ
count_pending_requests client p = elim (lookup ℕ_discrete client p.pending_requests_by_client) [
  | none ↦ 0
  | some rs ↦ count_in rs
]

-- The loop of `tryFinishRequests` over the IDs of one request: what stays pending, what is found.
unfoldable pub finish_ids : List ℤ → List ℤ → List ℤ → List ℤ × List ℤ
finish_ids [] pending found = (pending, found)
finish_ids (i ∷ ids) pending found =
    let hit = contains ℤ_discrete i pending in
    finish_ids ids (if hit then erase ℤ_discrete i pending else pending)
      (if hit then Sets.add ℤ_discrete i found else found)

-- The loop over the requests, which drops those with no ID left.
unfoldable pub finish_in : List ℤ → List PendingRequest → List ℤ → List PendingRequest × List ℤ
finish_in ids [] found = ([], found)
finish_in ids (r ∷ rs) found =
    let (pending, found') = finish_ids ids r.request_ids found in
    let (rest, found'') = finish_in ids rs found' in
    (if is_empty pending then rest else record r { request_ids = pending } ∷ rest, found'')

unfoldable pub try_finish_requests : ℕ → List ℤ → PendingRequestPool → PendingRequestPool × List ℤ
try_finish_requests client ids p = elim (lookup ℕ_discrete client p.pending_requests_by_client) [
  | none ↦ (p, [])
  | some rs ↦
      let (rest, found) = finish_in ids rs [] in
      (
        record p {
          pending_requests_by_client = insert ℕ_discrete client rest p.pending_requests_by_client;
        },
        found,
      )
]

-- The `while` loop of `checkTimeout`: the timed-out requests at the front, and the rest.
unfoldable pub expire : ℕ → List PendingRequest → List PendingRequest × List PendingRequest
expire now [] = ([], [])
expire now (r ∷ rs) =
    let (gone, kept) = expire now rs in
    if leb now r.timeout_timestamp then ([], r ∷ rs) else (r ∷ gone, kept)

-- The loop over the clients; a client with no request left is erased.
unfoldable pub expire_clients :
    ℕ → Dict ℕ (List PendingRequest) → List PendingRequest × Dict ℕ (List PendingRequest)
expire_clients now [] = ([], [])
expire_clients now ((client, rs) ∷ m) =
    let (gone, kept) = expire now rs in
    let (gone', m') = expire_clients now m in
    (gone ++ gone', if is_empty kept then m' else (client, kept) ∷ m')

-- A call of a callback, with the IDs that have timed out.
abbrev pub call_of : PendingRequest → ℕ × List ℤ
call_of r = (r.callback, r.request_ids)

unfoldable pub check_timeout : ℕ → PendingRequestPool → PendingRequestPool × List (ℕ × List ℤ)
check_timeout now p =
    let (gone, m) = expire_clients now p.pending_requests_by_client in
    (record p { pending_requests_by_client = m }, map call_of gone)

-- The loops of the destructor.
unfoldable pub flush : Dict ℕ (List PendingRequest) → List (ℕ × List ℤ)
flush [] = []
flush ((client, rs) ∷ m) = map call_of rs ++ flush m

-- `~PendingRequestPool`, once the thread has stopped.
unfoldable pub destroy : PendingRequestPool → PendingRequestPool × List (ℕ × List ℤ)
unfolding flush
destroy p = (record p { pending_requests_by_client = [] }, flush p.pending_requests_by_client)

-- The outer loop of `countPendingRequests()`.
unfoldable pub count_all : Dict ℕ (List PendingRequest) → ℕ
count_all [] = 0
count_all ((client, rs) ∷ m) = count_in rs + count_all m
