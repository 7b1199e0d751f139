-- ===== src/Hub/Queue/Unbonding.antt =====
-- A request to unbond and the queue of batches.
use jullia_lp_staking.Base.{
  ℕ, ◌+◌, ◌-◌, ◌≡◌, ◌⊎◌, refl, some, Option-cases, [], ◌∷◌, ◌++◌, false, arith, ok, Result-cases,
  inl, inr, ltb, ◌==◌, Bool-cases, String, ◌∙◌, if◌then◌else◌,
}
use jullia_lp_staking.Cosmwasm.Uint.{add_u64, add_u128, sub_or_panic, checked_sub}
use jullia_lp_staking.Cosmwasm.Decimal.{Decimals}
use jullia_lp_staking.Cosmwasm.Types.{Env}
use jullia_lp_staking.Basset.{State, UnbondHistory, CurrentBatch, Config}
use jullia_lp_staking.Messages.{CosmosMsg, Payload, Response}
use jullia_lp_staking.Hub.Store.{Store, Chain}
use jullia_lp_staking.Hub.Lists.{store_unbond_wait_list, store_unbond_history}
use jullia_lp_staking.Hub.Slashing.{slashing}
use jullia_lp_staking.Hub.Unbond.{
  Undelegation, process_undelegations, end_epoch, execute_unbond_statom, new_history,
}
use jullia_lp_staking.Hub.Release.{batch, batch-store}
use jullia_lp_staking.Hub.Frames.{slashing-store, store_unbond_wait_list-store}
use jullia_lp_staking.Hub.Queue.{QueueIsValid, QueueIsValid-same, last_of, id_of, slashing-last}

-- The current batch is stored, and the next one becomes the current one.
QueueIsValid-close :
    (s s' : Store) (v : QueueIsValid s) (h : UnbondHistory)
    → h.released ≡ false
    → s'.history ≡ (store_unbond_history v.current h s).history
    → last_of s' ≡ last_of s
    → id_of s' ≡ some (v.current + 1)
    → QueueIsValid s'
QueueIsValid-close s s' v h unreleased stored same_last next_id =
    let at : (k : ℕ) → batch k s' ≡ (if v.current == k then some h else batch k s) =
      λ k. rw stored (batch-store k v.current h s) in
    record {
      last = v.last;
      current = v.current + 1;
      has_last = same_last ∙ v.has_last;
      has_current = next_id;
      behind = omega (arith, v.behind);
      stored = λ k lo hi. ground (arith, at k, v.stored k);
      bounded = λ k out. ground (arith, at k, v.bounded k, v.behind);
      released = λ k g e le. ground (arith, at k, v.released k g, v.behind);
      pending = λ k g e lt. ground (arith, at k, v.pending k g);
    }

module _ ⦃num : Decimals⦄ where
  -- The end of an epoch closes the batch; before it nothing happens.
  pub end_epoch-cases :
      (chain : Chain) (env : Env) (passed period : ℕ) (b : CurrentBatch) (st : State) (s s' : Store)
      (u : Undelegation)
      → end_epoch chain env passed period b st s ≡ ok (u, s')
      → (u.state.last_processed_batch ≡ st.last_processed_batch)
        × (((s' ≡ s) × (u.current_batch ≡ b))
            ⊎ ((h : UnbondHistory) × (h.released ≡ false)
                × (h.statom_amount ≡ b.requested_statom)
                × (s' ≡ store_unbond_history b.id h s)
                × (u.current_batch ≡ record { id = b.id + 1; requested_statom = 0 })))
  unfolding end_epoch process_undelegations checked_sub add_u64
  end_epoch-cases chain env passed period b st s s' u h = elim (Bool-cases (ltb period passed)) [
    | inr early ↦ (ground arith, inl (ground arith, ground arith))
    | inl over ↦ elim (Result-cases (num.mul b.requested_statom st.statom_exchange_rate)) [
      | inr (e, fails) ↦ absurd (ground arith)
      | inl (claim, worth) ↦ (
        ground arith,
        inr (
          new_history env b
              (record st { total_bond_statom_amount = st.total_bond_statom_amount - claim }),
          refl,
          refl,
          ground arith,
          ground arith,
        ),
      )
    ]
  ]

  -- The stages of a request to unbond that succeeds.
  pub record Requested (chain : Chain) (env : Env) (amount : ℕ) (sender : String) (s s' : Store)
      (r : Response) (b : CurrentBatch) : Type 0 where
    -- the state and the storage after the check for slashing
    pub checked : State
    pub store : Store
    pub slashed : slashing chain env s ≡ ok (checked, store)
    -- the storage with the request in the wait list
    pub waiting : Store
    pub waits : store_unbond_wait_list chain b.id sender amount store ≡ ok waiting
    -- what the end of the epoch, if it has come, makes of the batch with the request
    pub passed : ℕ
    pub period : ℕ
    pub undelegation : Undelegation
    pub epoch : Store
    pub ended :
        end_epoch chain env passed period
          (record b { requested_statom = b.requested_statom + amount })
          checked
          waiting
        ≡ ok (undelegation, epoch)
    pub history : s'.history ≡ epoch.history
    pub wait : s'.wait ≡ epoch.wait
    pub last : last_of s' ≡ some undelegation.state.last_processed_batch
    pub batch : s'.current_batch ≡ some undelegation.current_batch
    -- the messages that undelegate, and the burn for the token contract that the hub has registered
    pub config : Config
    pub has_config : s'.config ≡ some config
    pub token : String
    pub registered : config.statom_token_contract ≡ some token
    pub messages :
        r.messages
        ≡ undelegation.messages ++ CosmosMsg.wasm_execute token (Payload.burn amount) [] ∷ []

  pub execute_unbond_statom_steps :
      (chain : Chain) (env : Env) (amount : ℕ) (sender : String) (s s' : Store) (r : Response)
      (b : CurrentBatch)
      → s.current_batch ≡ some b
      → execute_unbond_statom chain env amount sender s ≡ ok (r, s')
      → Requested chain env amount sender s s' r b
  unfolding execute_unbond_statom add_u128
  execute_unbond_statom_steps chain env amount sender s s' r b current h =
      elim (Option-cases s.parameters) [
        | inl missing ↦ absurd (ground arith)
        | inr (p, params) ↦ elim (Result-cases (slashing chain env s)) [
          | inr (e, fails) ↦ absurd (ground arith)
          | inl ((st, s₁), slashed) ↦
              elim (Result-cases (store_unbond_wait_list chain b.id sender amount s₁)) [
                | inr (e, fails) ↦ absurd (ground arith)
                | inl (s₂, waits) ↦
                    elim (Result-cases (sub_or_panic env.block_seconds st.last_unbonded_time)) [
                      | inr (e, fails) ↦ absurd (ground arith)
                      | inl (passed, past) ↦
                          let b' = record b { requested_statom = b.requested_statom + amount } in
                          elim (Result-cases (end_epoch chain env passed p.epoch_period b' st s₂)) [
                            | inr (e, fails) ↦ absurd (ground arith)
                            | inl ((u, s₃), ended) ↦ elim (Option-cases s₃.config) [
                              | inl missing ↦ absurd (ground arith)
                              | inr (c, config) ↦ elim (Option-cases c.statom_token_contract) [
                                | inl missing ↦ absurd (ground arith)
                                | inr (token, known) ↦ record {
                                  checked = st;
                                  store = s₁;
                                  waiting = s₂;
                                  passed = passed;
                                  period = p.epoch_period;
                                  undelegation = u;
                                  epoch = s₃;
                                  slashed = slashed;
                                  waits = waits;
                                  ended = ended;
                                  history = ground arith;
                                  last = ground arith;
                                  batch = ground arith;
                                  wait = ground arith;
                                  config = c;
                                  has_config = ground arith;
                                  token = token;
                                  registered = known;
                                  messages = ground arith;
                                }
                              ]
                            ]
                          ]
                    ]
              ]
        ]
      ]

  pub execute_unbond_statom-QueueIsValid :
      (chain : Chain) (env : Env) (amount : ℕ) (sender : String) (s s' : Store) (r : Response)
      → execute_unbond_statom chain env amount sender s ≡ ok (r, s')
      → QueueIsValid s
      → QueueIsValid s'
  unfolding store_unbond_history
  execute_unbond_statom-QueueIsValid chain env amount sender s s' r h v =
      elim (Option-cases s.current_batch) [
        | inl missing ↦ absurd (ground (arith, v.has_current))
        | inr (b, current) ↦
            let q = execute_unbond_statom_steps chain env amount sender s s' r b current h in
            let frame₁ = slashing-store chain env s q.store q.checked q.slashed in
            let frame₂ =
              store_unbond_wait_list-store chain b.id sender amount q.store q.waiting q.waits in
            let last_lem = slashing-last chain env s q.store q.checked q.slashed in
            let (same_last, cases) =
              end_epoch-cases chain env q.passed q.period
                (record b { requested_statom = b.requested_statom + amount }) q.checked q.waiting
                q.epoch q.undelegation q.ended in
            elim cases [
              | inl (early, same) ↦
                  QueueIsValid-same s s' (ground (arith, q.last)) (ground (arith, q.batch))
                    (ground (arith, q.history, frame₁, frame₂)) v
              | inr (g, unreleased, amounts, closed, next) ↦
                  QueueIsValid-close s s' v g unreleased
                    (ground (arith, q.history, frame₁, frame₂, v.has_current))
                    (ground (arith, q.last)) (ground (arith, q.batch, v.has_current))
            ]
      ]
