-- ===== src/Client/Dedupe/Tests.antt =====
-- The dedupe plugin with concrete calls.
use orpc.Prelude.{ℕ, String, true, false, some, none, List, [], ◌∷◌, ◌≡◌, refl}
use orpc.Client.Dedupe.{
  Body, json, blob, Call, can_dedupe_request, Stringify, put_request, enqueue, intercept,
  intercept_all, resolves_with, rejects_with, Transport, resolved, resolved_replica, rejected,
  execute, execute_each, process_pending_requests,
}
use orpc.Client.Dedupe.Pending.{IsWellFormed, intercept_all-IsWellFormed}
use orpc.Client.Dedupe.Settling.{settlements_of, waiting_calls, process_settles_once}

deduping : Unit {0}
unfolding can_dedupe_request put_request enqueue intercept intercept_all execute execute_each
    process_pending_requests
deduping = tt

-- calls that differ by their URL
abbrev stringify : Stringify
stringify path body headers method url = url

abbrev call : ℕ → String → Body → Call
call p url body = record {
  promise = p;
  body = body;
  signal = none;
  is_aborted = false;
  is_filtered = true;
  group = some 0;
  path = "";
  headers = "";
  method = "GET";
  url = url;
}

abbrev calls : List Call
calls =
    call 1 "/a" (json "") ∷ call 2 "/b" (json "") ∷ call 3 "/a" (json "") ∷ call 4 "/a" blob ∷ []

abbrev transport : Transport
transport = record {
  next = λ c. resolves_with 70;
  context = λ g items. resolves_with 5;
  next_joined = λ c signals context. resolves_with 80;
}

abbrev failing : Transport
failing = record transport { context = λ g items. rejects_with 9 }

dedupe_tests :
    (process_pending_requests transport (intercept_all stringify [] calls)
      ≡ resolved_replica 1 80 1 ∷ resolved_replica 3 80 0 ∷ resolved 2 70 ∷ [])
    × (process_pending_requests failing (intercept_all stringify [] calls)
        ≡ rejected 1 9 ∷ rejected 3 9 ∷ resolved 2 70 ∷ [])
unfolding deduping
dedupe_tests = (refl, refl)

process_settles_once_example :
    settlements_of 3 (process_pending_requests transport (intercept_all stringify [] calls))
    ≡ waiting_calls 3 calls
process_settles_once_example = process_settles_once stringify transport calls 3

intercept_all-IsWellFormed_example : IsWellFormed stringify (intercept_all stringify [] calls)
intercept_all-IsWellFormed_example = intercept_all-IsWellFormed stringify [] calls tt
