-- ===== src/OnChain/Examples.antt =====
-- The transfer legs of workers/handlers.ts for one split.
use openunion.Prelude.{◌≡◌, refl, some, []}
use openunion.Prelude.Tables.{find, sum}
use openunion.Fees.{compute_payout_split_cents, cents_to_usdc_base_units}
use openunion.OnChain.{broadcast_transfers, splitter_call}
use openunion.OnChain.Broadcast.{sent_units, legs_conserve}

legs_conserve_example :
    sent_units 6 (
      broadcast_transfers 6
        (splitter_call 88
          (some 77)
          99
          (record { platform_fee_cents = 50; proofwork_fee_cents = 9; net_cents = 941 }))
        1007
        7
        [])
    ≡ 10000000
unfolding compute_payout_split_cents cents_to_usdc_base_units find sum
legs_conserve_example =
    legs_conserve 6 1000 500 100 88 99 1007 7 (some 77)
      (record { platform_fee_cents = 50; proofwork_fee_cents = 9; net_cents = 941 }) [] refl refl
