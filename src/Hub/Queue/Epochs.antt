-- ===== src/Hub/Queue/Epochs.antt =====
-- The queue of batches at a release and at the end of an epoch.
use jullia_lp_staking.Base.{
  ℕ, ◌≤◌, ◌<◌, ◌≡◌, ◌⊎◌, some, arith, inl, inr, sym, ◌∙◌, ltb, leb, Bool-cases, ltb→lt, leb→le,
}
use jullia_lp_staking.Basset.{State, UnbondHistory}
use jullia_lp_staking.Hub.Store.{Store}
use jullia_lp_staking.Hub.Withdraw.{release}
use jullia_lp_staking.Hub.Release.{batch}
use jullia_lp_staking.Hub.Released.{Released}
use jullia_lp_staking.Hub.Queue.{QueueIsValid, id_of}

-- A batch is as it was before a release, or it is one of those that are released now.
pub Released-cases :
    {time : ℕ} {s s' : Store} {st : State}
    → (r : Released time s s' st) → (k : ℕ)
    → ((batch k s' ≡ batch k s) × ((k ≤ st.last_processed_batch) ⊎ (r.last < k)))
      ⊎ ((h : UnbondHistory) × (rate : ℕ) × (batch k s ≡ some h)
          × (batch k s' ≡ some (release h rate))
          × (st.last_processed_batch < k)
          × (k ≤ r.last))
Released-cases {st} r k = elim (Bool-cases (leb k st.last_processed_batch)) [
  | inl old ↦ inl (r.others k (inl (leb→le _ _ old)), inl (leb→le _ _ old))
  | inr new ↦ elim (Bool-cases (ltb r.last k)) [
    | inl later ↦ inl (r.others k (inr (ltb→lt _ _ later)), inr (ltb→lt _ _ later))
    | inr now ↦
        let lo : st.last_processed_batch < k = ground arith in
        let hi : k ≤ r.last = ground arith in
        let e = r.each k lo hi in inr (e.0, e.1, e.2, e.5, lo, hi)
  ]
]

pub Released-QueueIsValid :
    {time : ℕ} {s s' : Store} {st : State}
    → s.state ≡ some st
    → id_of s' ≡ id_of s
    → Released time s s' st
    → QueueIsValid s
    → QueueIsValid s'
Released-QueueIsValid {time} {s} {s'} {st} loaded same_id r v =
    let start : v.last ≡ st.last_processed_batch = ground (arith, v.has_last) in
    record {
      last = r.last;
      current = v.current;
      has_last = ground (arith, r.stored);
      has_current = same_id ∙ v.has_current;
      behind = elim (Released-cases r r.last) [
        | inl (same, inl le) ↦ omega (arith, v.behind, start)
        | inl (same, inr lt) ↦ absurd (omega arith)
        | inr (h, rate, before, after, lo, hi) ↦ elim (Bool-cases (ltb r.last v.current)) [
          | inl lt ↦ ltb→lt _ _ lt
          | inr ge ↦
              let le : v.current ≤ r.last = ground arith in absurd (cc (v.bounded r.last (inr le)))
        ]
      ];
      stored = λ k lo hi. elim (Released-cases r k) [
        | inl (same, place) ↦ rw same (v.stored k lo hi)
        | inr (h, rate, before, after, lo', hi') ↦ λ e. cc
      ];
      bounded = λ k out. elim (Released-cases r k) [
        | inl (same, place) ↦ same ∙ v.bounded k out
        | inr (h, rate, before, after, lo', hi') ↦ absurd (cc (v.bounded k out))
      ];
      released = λ k h e le. elim (Released-cases r k) [
        | inl (same, inl old) ↦ v.released k h (sym same ∙ e) (omega (arith, start))
        | inl (same, inr lt) ↦ absurd (omega arith)
        | inr (g, rate, before, after, lo', hi') ↦ ground arith
      ];
      pending = λ k h e lt. elim (Released-cases r k) [
        | inl (same, inl old) ↦ absurd (omega (arith, r.forward))
        | inl (same, inr later) ↦ v.pending k h (sym same ∙ e) (omega (arith, start, r.forward))
        | inr (g, rate, before, after, lo', hi') ↦ absurd (omega arith)
      ];
    }
