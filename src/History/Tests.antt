-- ===== src/History/Tests.antt =====
-- A short history of a wallet.
use dynamic_nft_krnl.Base.{put, arith, refl, List, [], ◌∷◌}
use dynamic_nft_krnl.Ledger.Synced.{IsSynced}
use dynamic_nft_krnl.History.{
  Operation, delivered, asked_for_keys, opening, viewed, history, history-IsSynced, AllSolvent,
  history-AllSolvent,
}
use dynamic_nft_krnl.Fixtures.{webhook_env, completion, me_env, shop, two_keys}

abbrev visit : List Operation
visit =
    viewed "acme" "0xa"
    ∷ delivered webhook_env completion
    ∷ asked_for_keys me_env "acme" "0xa" 1
    ∷ opening me_env "acme" "0xa"
    ∷ []

history-IsSynced_example : IsSynced (history visit shop).ledgers "acme" "0xa"
unfolding two_keys
history-IsSynced_example =
    history-IsSynced visit shop "acme" "0xa" (record { loot = refl; balance = refl; user = refl })

solvent : AllSolvent two_keys
unfolding two_keys put
solvent b w = ground arith

history-AllSolvent_example : AllSolvent (history visit shop).ledgers
history-AllSolvent_example = history-AllSolvent visit shop solvent
