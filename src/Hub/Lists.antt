-- ===== src/Hub/Lists.antt =====
-- The unbonding wait lists and the unbonding history: the functions of
-- contracts/lido_cosmos_hub/src/state.rs.
use jullia_lp_staking.Base.{
  ℕ, zero, suc, ◌/◌, ◌%◌, ◌^◌, String, Bool, true, false, ◌&&◌, ◌||◌, List, [], ◌∷◌, ◌++◌, Option,
  some, none, map, Result, ok, err, generic_err, not_found, ok_or, unwrap_or, ◌>>=◌, ltb, ◌==◌,
  if◌then◌else◌, min, take, str_eq,
}
use jullia_lp_staking.Base.Maps.{lookup, insert, remove}
use jullia_lp_staking.Base.Keys.{u64_key, ordered_key}
use jullia_lp_staking.Cosmwasm.Uint.{add_u128}
use jullia_lp_staking.Cosmwasm.Decimal.{Decimals}
use jullia_lp_staking.Basset.{UnbondHistory, UnbondWaitEntity}
use jullia_lp_staking.Hub.Store.{Store, Chain}

abbrev pub Bucket : Type 0
Bucket = List (ℕ × UnbondWaitEntity)

-- Writes one user's bucket back.
abbrev pub set_bucket : String → Bucket → Store → Store
set_bucket addr b s = record s { wait = λ a. if str_eq addr a then b else s.wait a }

unfoldable pub store_unbond_wait_list : Chain → ℕ → String → ℕ → Store → Result Store
store_unbond_wait_list chain batch_id sender_address amount s =
    let key = ordered_key chain.wait_before in
    let asked_already = lookup key batch_id (s.wait sender_address) in
    let wl = unwrap_or asked_already (record { statom_amount = 0 }) in
    do
      total ← add_u128 wl.statom_amount amount
      let wl' = record wl { statom_amount = total }
      ok (set_bucket sender_address (insert key batch_id wl' (s.wait sender_address)) s)

unfoldable pub remove_batches : Chain → List ℕ → Bucket → Bucket
remove_batches chain [] b = b
remove_batches chain (k ∷ ks) b =
    remove_batches chain ks (remove (ordered_key chain.wait_before) k b)

unfoldable pub remove_unbond_wait_list : Chain → List ℕ → String → Store → Store
remove_unbond_wait_list chain batch_id sender_address s =
    set_bucket sender_address (remove_batches chain batch_id (s.wait sender_address)) s

unfoldable pub read_unbond_wait_list : Chain → ℕ → String → Store → Result UnbondWaitEntity
read_unbond_wait_list chain batch_id sender_addr s =
    ok_or (lookup (ordered_key chain.wait_before) batch_id (s.wait sender_addr)) not_found

abbrev pub request : ℕ × UnbondWaitEntity → ℕ × ℕ
request (k, v) = (k, v.statom_amount)

unfoldable pub get_unbond_requests : String → Store → List (ℕ × ℕ)
get_unbond_requests sender_addr s = map request (s.wait sender_addr)

unfoldable pub store_unbond_history : ℕ → UnbondHistory → Store → Store
store_unbond_history batch_id history s = record s {
  history = insert u64_key batch_id history s.history;
}

unfoldable pub read_unbond_history : ℕ → Store → Result UnbondHistory
read_unbond_history epoch_id s =
    ok_or (lookup u64_key epoch_id s.history)
      (generic_err "Burn requests not found for the specified time period")

module _ ⦃num : Decimals⦄ where
  -- One turn of the loop of `get_finished_amount`, on the amount and the batches so far.
  unfoldable pub finished_step : Store → ℕ → UnbondWaitEntity → ℕ × List ℕ → Result (ℕ × List ℕ)
  finished_step s user_batch v (withdrawable_amount, deprecated_batches) =
      elim (read_unbond_history user_batch s) [
        | err _ ↦ ok (withdrawable_amount, deprecated_batches)
        | ok h ↦
            if h.released
            then (num.mul v.statom_amount h.statom_withdraw_rate >>= λ part.
                add_u128 withdrawable_amount part >>= λ total.
                ok (total, deprecated_batches ++ user_batch ∷ []))
            else ok (withdrawable_amount, deprecated_batches)
      ]

  unfoldable pub finished_loop : Store → Bucket → ℕ × List ℕ → Result (ℕ × List ℕ)
  finished_loop s [] acc = ok acc
  finished_loop s ((user_batch, v) ∷ b) acc = finished_step s user_batch v acc >>= finished_loop s b

  unfoldable pub get_finished_amount : String → Store → Result (ℕ × List ℕ)
  get_finished_amount sender_addr s = finished_loop s (s.wait sender_addr) (0, [])

  -- One turn of the loop of `query_get_finished_amount`.
  unfoldable pub query_finished_step : Store → ℕ → ℕ → UnbondWaitEntity → ℕ → Result ℕ
  query_finished_step s block_time user_batch v withdrawable_amount =
      elim (read_unbond_history user_batch s) [
        | err _ ↦ ok withdrawable_amount
        | ok h ↦
            if ltb h.time block_time
            then (num.mul v.statom_amount h.statom_withdraw_rate >>= add_u128 withdrawable_amount)
            else ok withdrawable_amount
      ]

  unfoldable pub query_finished_loop : Store → ℕ → Bucket → ℕ → Result ℕ
  query_finished_loop s block_time [] acc = ok acc
  query_finished_loop s block_time ((user_batch, v) ∷ b) acc =
      query_finished_step s block_time user_batch v acc >>= query_finished_loop s block_time b

  unfoldable pub query_get_finished_amount : String → ℕ → Store → Result ℕ
  query_get_finished_amount sender_addr block_time s =
      query_finished_loop s block_time (s.wait sender_addr) 0

-- Settings for pagination.
abbrev pub max_limit : ℕ
max_limit = 100

abbrev pub default_limit : ℕ
default_limit = 10

-- `n.to_be_bytes()` of a `u64`: the `k` lowest bytes, the highest first
abbrev pub be_bytes : ℕ → ℕ → List ℕ
be_bytes zero n = []
be_bytes (suc k) n = n / 256 ^ k % 256 ∷ be_bytes k n

unfoldable pub convert : Option ℕ → Option (List ℕ)
convert none = none
convert (some idx) = some (be_bytes 8 idx ++ 1 ∷ [])

-- The order of byte strings, by which a range selects its keys.
abbrev pub bytes_leb : List ℕ → List ℕ → Bool
bytes_leb [] ys = true
bytes_leb (x ∷ xs) [] = false
bytes_leb (x ∷ xs) (y ∷ ys) = ltb x y || x == y && bytes_leb xs ys

abbrev pub in_range : Option (List ℕ) → ℕ → Bool
in_range none k = true
in_range (some start) k = bytes_leb start (be_bytes 8 k)

-- `range(start, None, Ascending)` on the values
unfoldable pub range_from : Option (List ℕ) → List (ℕ × UnbondHistory) → List UnbondHistory
range_from start [] = []
range_from start ((k, h) ∷ m) =
    let rest = range_from start m in if in_range start k then h ∷ rest else rest

unfoldable pub all_unbond_history : Option ℕ → Option ℕ → Store → List UnbondHistory
all_unbond_history start limit s =
    let lim = min (unwrap_or limit default_limit) max_limit in
    take lim (range_from (convert start) s.history)
