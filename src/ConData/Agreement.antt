-- ===== src/ConData/Agreement.antt =====
-- A process that gets through the exchange has peers that agree.
use omnireduce.Base.{
  ℕ, zero, suc, ◌+◌, ◌≤◌, ◌<◌, ◌≡◌, ◌≢◌, ◌⊎◌, inl, inr, sym, ap, ◌∙◌, arith, Bool-cases, false, ℤ,
  ◌==◌, ==_iff, update, ℕ_discrete,
}
use omnireduce.Outcome.{Failure, ok, failed}
use omnireduce.ConData.{ConData, RemoteData, exchange, is_negative}

-- Peer `k` has answered, and names this process `id`; the number of peers is compared but for the first.
pub record Agrees (sync : ℕ → ℤ × ConData) (num_peers id k : ℕ) : Type 0 where
  pub came : is_negative ((sync k).0) ≡ false
  pub named : (sync k).1.remote_id ≡ id
  pub counted : (k ≡ 0) ⊎ ((sync k).1.num_peers ≡ num_peers)

failed-ne-ok {ℓ} : {A : Type ℓ} {why : Failure} {x : A} → failed why ≡ ok x → ⊥
failed-ne-ok h = cc

module _ (sync : ℕ → ℤ × ConData) (num_peers : ℕ) (take : ℕ → ConData → RemoteData) where
  exchange-step :
      (i n id : ℕ) (props : ℕ → RemoteData) (y : ℕ × (ℕ → RemoteData))
      → exchange sync num_peers take i (suc n) id props ≡ ok y
      → (is_negative ((sync i).0) ≡ false)
        × ((i ≡ 0) ⊎ ((id ≡ (sync i).1.remote_id) × ((sync i).1.num_peers ≡ num_peers)))
        × (exchange sync num_peers take
              (i + 1)
              n
              ((sync i).1.remote_id)
              (update props i (take i ((sync i).1)))
            ≡ ok y)
  unfolding exchange
  exchange-step i n id props y h = elim (Bool-cases (is_negative ((sync i).0))) [
    | inl e ↦ absurd (failed-ne-ok (rw e at h))
    | inr e ↦ elim (Bool-cases (i == 0)) [
      | inl z ↦ (e, inl (ground arith), rw (e, z) at h)
      | inr z ↦ elim (Bool-cases (id == (sync i).1.remote_id)) [
        | inr other ↦ absurd (failed-ne-ok (rw (e, z, other) at h))
        | inl own ↦ elim (Bool-cases (num_peers == (sync i).1.num_peers)) [
          | inr other ↦ absurd (failed-ne-ok (rw (e, z, own, other) at h))
          | inl all ↦
              let same : id ≡ (sync i).1.remote_id = (==_iff _ _).0 own in
              (
                e,
                inr (same, sym ((==_iff _ _).0 all)),
                ap
                      (λ v.
                        exchange sync num_peers take (i + 1) n v
                          (update props i (take i ((sync i).1))))
                      (sym same)
                    ∙ rw (e, z, own, all) at h,
              )
        ]
      ]
    ]
  ]

  exchange-id :
      (i n id : ℕ) (props : ℕ → RemoteData) (id' : ℕ) (props' : ℕ → RemoteData)
      → i ≢ 0
      → exchange sync num_peers take i n id props ≡ ok (id', props')
      → id' ≡ id
  unfolding exchange
  exchange-id i zero id props id' props' later h = cc
  exchange-id i (suc n) id props id' props' later h =
      let (_, first, rest) = exchange-step i n id props (id', props') h in
      exchange-id (i + 1) n _ _ id' props' (ground arith) rest ∙ ground (arith, first, later)

  exchange-range :
      (i n id : ℕ) (props : ℕ → RemoteData) (id' : ℕ) (props' : ℕ → RemoteData) (k : ℕ)
      → exchange sync num_peers take i n id props ≡ ok (id', props')
      → i ≤ k
      → k < i + n
      → Agrees sync num_peers id' k
  exchange-range i zero id props id' props' k h low high = absurd (omega arith)
  exchange-range i (suc n) id props id' props' k h low high =
      let (came, first, rest) = exchange-step i n id props (id', props') h in
      elim (ℕ_discrete i k) [
        | yes e ↦ rw (← e) (record {
          came = came;
          named = sym (exchange-id (i + 1) n _ _ id' props' (ground arith) rest);
          counted = ground (arith, first);
        })
        | no e ↦ exchange-range (i + 1) n _ _ id' props' k rest (omega arith) (omega arith)
      ]

  -- When the exchange of the records ends without an exit, sock_sync_data was negative for no
  -- peer, every record names this process by the same number, and every record but the first
  -- has the expected number of peers.
  pub exchange-Agrees :
      (n id : ℕ) (props : ℕ → RemoteData) (id' : ℕ) (props' : ℕ → RemoteData) (k : ℕ)
      → exchange sync num_peers take 0 n id props ≡ ok (id', props')
      → k < n
      → Agrees sync num_peers id' k
  exchange-Agrees n id props id' props' k h high =
      exchange-range 0 n id props id' props' k h (omega arith) (omega arith)
