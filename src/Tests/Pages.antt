-- ===== src/Tests/Pages.antt =====
-- A page of the history.
use jullia_lp_staking.Base.{◌≡◌, refl, some, arith, map, take}
use jullia_lp_staking.Hub.Queries.{query_unbond_requests_limitation, history_response}
use jullia_lp_staking.Hub.Pages.{behind, query_unbond_requests_limitation_lem}
use jullia_lp_staking.Tests.{store}

query_unbond_requests_limitation_lem_example :
    query_unbond_requests_limitation (some 1) (some 5) store
    ≡ record { history = map history_response (take 5 (behind 1 store.history)) }
query_unbond_requests_limitation_lem_example =
    query_unbond_requests_limitation_lem 1 (some 5) store (omega arith) refl
