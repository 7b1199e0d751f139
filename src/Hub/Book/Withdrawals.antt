-- ===== src/Hub/Book/Withdrawals.antt =====
-- Releases and withdrawals against the rules of the book.
use jullia_lp_staking.Base.{
  ℕ, ◌≤◌, ◌<◌, ◌≡◌, ◌≢◌, ◌⊎◌, String, ◌&&◌, arith, none, ok, leb, ltb, str_eq, str_eq_iff,
  if◌then◌else◌, Option-cases, Bool-cases, inl, inr,
}
use jullia_lp_staking.Cosmwasm.Decimal.{Decimals}
use jullia_lp_staking.Cosmwasm.Types.{Env, MessageInfo}
use jullia_lp_staking.Basset.{Parameters}
use jullia_lp_staking.Messages.{Response}
use jullia_lp_staking.Hub.Store.{Store, Chain}
use jullia_lp_staking.Hub.Withdraw.{process_withdraw_rate, execute_withdraw_unbonded}
use jullia_lp_staking.Hub.Release.{batch}
use jullia_lp_staking.Hub.Released.{process_withdraw_rate-Released}
use jullia_lp_staking.Hub.Payout.{rate_of}
use jullia_lp_staking.Hub.Withdrawal.{Withdrawn, execute_withdraw_unbonded-Withdrawn}
use jullia_lp_staking.Hub.Frames.{process_withdraw_rate-store, execute_withdraw_unbonded-store}
use jullia_lp_staking.Hub.Queue.{QueueIsValid}
use jullia_lp_staking.Hub.Queue.Epochs.{Released-cases}
use jullia_lp_staking.Hub.Queue.Steps.{process_withdraw_rate-QueueIsValid}
use jullia_lp_staking.Hub.Book.{Book, Moves, withdraw}
use jullia_lp_staking.Hub.Book.Views.{Refines, claim_of, lookup_order}

-- A batch has a rate exactly if it is released.
pub rate_of-QueueIsValid :
    (s : Store) (v : QueueIsValid s) (k : ℕ)
    → (0 < k → k ≤ v.last → rate_of k s ≢ none) × ((k ≡ 0) ⊎ (v.last < k) → rate_of k s ≡ none)
rate_of-QueueIsValid s v k = elim (Option-cases (batch k s)) [
  | inl missing ↦ (λ lo le e. v.stored k lo (omega (arith, v.behind)) missing, λ out. ground arith)
  | inr (h, found) ↦ (
    (λ lo le e. ground (arith, v.released k h found le)),
    (λ out. elim out [
      | inl none_at_zero ↦ ground (arith, v.bounded k)
      | inr above ↦ ground (arith, v.pending k h found above)
    ]),
  )
]

module _ ⦃num : Decimals⦄ where
  -- A release moves the last batch, and keeps the amounts of all batches.
  process_withdraw_rate-Refines :
      (time balance : ℕ) (s s' : Store) (b : Book) (v : QueueIsValid s) (v' : QueueIsValid s')
      → process_withdraw_rate time balance s ≡ ok (tt, s')
      → Refines b s
      → (b.last ≤ v'.last) × (v'.last < b.current) × Refines (record b { last = v'.last }) s'
  process_withdraw_rate-Refines time balance s s' b v v' h f = elim (Option-cases s.state) [
    | inl missing ↦ absurd (ground (arith, f.has_last))
    | inr (st, loaded) ↦
        let r = process_withdraw_rate-Released time balance s s' st loaded h in
        let frame = process_withdraw_rate-store time balance s s' h in
        let here : r.last ≡ v'.last = ground (arith, r.stored, v'.has_last) in
        let there : b.last ≡ st.last_processed_batch = ground (arith, f.has_last) in
        let current : v'.current ≡ b.current =
          ground (arith, v'.has_current, f.has_current, frame) in
        (
          omega (arith, r.forward, here, there),
          omega (arith, v'.behind, current),
          record {
            has_last = v'.has_last;
            has_current = ground (arith, f.has_current, frame);
            has_claim = λ a k. ground (arith, f.has_claim a k, frame);
            has_total = λ k. elim (Released-cases r k) [
              | inl (same, place) ↦ ground (arith, f.has_total k, frame)
              | inr (g, rate, before, after, lo, hi) ↦ ground (arith, f.has_total k, frame)
            ];
          },
        )
  ]

  -- A withdrawal takes the claims on the released batches, and no other claim.
  Withdrawn-claim :
      (chain : Chain) (env : Env) (info : MessageInfo) (p : Parameters) (s s' : Store)
      (r : Response) (w : Withdrawn chain env info p s s' r) (v : QueueIsValid w.released)
      (a : String) (k : ℕ)
      → claim_of s' a k
        ≡ (if str_eq info.sender a && (ltb 0 k && leb k v.last) then 0 else claim_of w.released a k)
  Withdrawn-claim chain env info p s s' r w v a k =
      let order = lookup_order chain.wait_before k in
      elim (Bool-cases (str_eq info.sender a)) [
        | inr other ↦
            ground (arith, w.other_users a (λ e. ground (arith, str_eq_iff info.sender a)))
        | inl own ↦
            let e : info.sender ≡ a = (str_eq_iff info.sender a).0 own in
            let rates = rate_of-QueueIsValid w.released v k in
            rw (← e) (elim (Bool-cases (ltb 0 k && leb k v.last)) [
              | inl old ↦ ground (
                arith,
                w.dropped k (rates.0 (ground arith) (ground arith)),
                order (s'.wait info.sender),
                str_eq_iff info.sender info.sender,
              )
              | inr new ↦ ground (
                arith,
                w.kept k (rates.1 (ground arith)),
                order (s'.wait info.sender),
                order (w.released.wait info.sender),
                str_eq_iff info.sender info.sender,
              )
            ])
      ]

  pub execute_withdraw_unbonded-Refines :
      (chain : Chain) (env : Env) (info : MessageInfo) (s s' : Store) (r : Response) (b : Book)
      → execute_withdraw_unbonded chain env info s ≡ ok (r, s')
      → QueueIsValid s
      → Refines b s
      → (b' : Book) × Moves b b' × Refines b' s'
  execute_withdraw_unbonded-Refines chain env info s s' r b h v f =
      elim (Option-cases s.parameters) [
        | inl missing ↦ absurd (unfold execute_withdraw_unbonded in ground arith)
        | inr (p, params) ↦
            let w = execute_withdraw_unbonded-Withdrawn chain env info p s s' r params h in
            let v' = process_withdraw_rate-QueueIsValid _ _ s w.released w.processed v in
            let (le, lt, g) = process_withdraw_rate-Refines _ _ s w.released b v v' w.processed f in
            let frame = execute_withdraw_unbonded-store chain env info s s' r h in
            let frame₁ = process_withdraw_rate-store _ _ s w.released w.processed in
            (
              withdraw info.sender (record b { last = v'.last }),
              Moves.releases v'.last le lt (Moves.withdraws info.sender Moves.stay),
              record {
                has_last = ground (arith, g.has_last, w.noted);
                has_current = ground (arith, g.has_current, frame, frame₁);
                has_claim = λ a k.
                    ground
                      (arith, g.has_claim a k, Withdrawn-claim chain env info p s s' r w v' a k);
                has_total = λ k. ground (arith, g.has_total k, frame, frame₁, w.same_history);
              },
            )
      ]
